-- ===== src/Tests/Pages.antt =====
-- Tests of the pager (storage/pager.go).
use my_sqlight.Storage.Pager.Extend.{extend_file_outcome, allocate_page_new}
use my_sqlight.Storage.Pager.Access.{write_page_sound, set_catalog_root_page_id_sound}
use my_sqlight.Files.{read_full}
use my_sqlight.Storage.Pager.Create.{open_pager_new}
use my_sqlight.Storage.Pager.Reuse.{allocate_page_reused}
use my_sqlight.Storage.Pager.Free.{Keeps, free_page_sound, free_page_outcome, KeepsOthers, SamePage}
use my_sqlight.Storage.Pager.History.{extends, created, step, open_pager-Reached}
use my_sqlight.Storage.Pager.Layout.{IsSound}
use my_sqlight.Prelude.{
  length-replicate, ◌==◌, if◌then◌else◌, err, ◌+◌, arith, replicate, ◌≡◌, ℕ, refl, ok, [], ◌∷◌,
}
use my_sqlight.Storage.Pager.{
  short_file, page_too_big, set_catalog_root_page_id, free_page, write_page, read_page, open_pager,
  Pager, page_bytes, allocate_page,
}

bad_file : open_pager (1 ∷ []) ≡ err short_file
unfolding open_pager read_full
bad_file = refl

no_such_page :
    read_page
      (record { pages = []; free_list_head = 0; page_count = 1; catalog_root_page_id = 0 })
      1
    ≡ err page_too_big
unfolding read_page
no_such_page = refl

-- A new database file, with the outcome of `Open`.
made : (p : Pager) × (open_pager [] ≡ ok p) × IsSound p [] × (p.page_count ≡ 1)
made = open_pager_new

abbrev first : Pager
first = made.0

-- The file with two pages more.
one_more :
    (p : Pager) × (allocate_page first ≡ ok (first.page_count, p))
    × IsSound p []
    × (p.page_count ≡ first.page_count + 1)
    × (read_page p first.page_count ≡ ok (replicate page_bytes 0))
    × Keeps first [] made.2 p
one_more = extend_file_outcome first [] made.2 refl (omega (arith, made.3))

abbrev second : Pager
second = one_more.0

second_count : second.page_count ≡ 2
second_count = omega (arith, made.3, one_more.3)

two_more :
    (p : Pager) × (allocate_page second ≡ ok (second.page_count, p))
    × IsSound p []
    × (p.page_count ≡ second.page_count + 1)
    × (read_page p second.page_count ≡ ok (replicate page_bytes 0))
    × Keeps second [] one_more.2 p
two_more = extend_file_outcome second [] one_more.2 refl (omega (arith, second_count))

abbrev third : Pager
third = two_more.0

third_count : third.page_count ≡ 3
third_count = omega (arith, second_count, two_more.3)

-- Page 1 is free.
freed :
    (p : Pager) × (free_page third 1 ≡ ok p)
    × IsSound p (1 ∷ [])
    × KeepsOthers third [] two_more.2 1 p
freed = free_page_outcome third [] two_more.2 1 (omega arith) (omega (arith, third_count)) tt

open_pager-Reached_example : IsSound second [] × (open_pager second.pages ≡ ok second)
open_pager-Reached_example =
    open_pager-Reached second []
      (step (created made.1) (extends refl (omega (arith, made.3)) one_more.1))

write_page_sound_example :
    (p' : Pager) × (write_page second 1 (replicate page_bytes 7) ≡ ok p')
    × IsSound p' []
    × (p'.page_count ≡ second.page_count)
    × (read_page p' 1 ≡ (if 1 == 1 then ok (replicate page_bytes 7) else read_page second 1))
write_page_sound_example =
    write_page_sound second [] one_more.2 1 1 (replicate page_bytes 7) (omega arith)
      (omega (arith, second_count)) (length-replicate {A = ℕ} page_bytes 7) tt
      (omega (arith, second_count))

set_catalog_root_page_id_sound_example :
    IsSound (set_catalog_root_page_id second 1) []
    × (read_page (set_catalog_root_page_id second 1) 1 ≡ read_page second 1)
set_catalog_root_page_id_sound_example =
    set_catalog_root_page_id_sound second [] one_more.2 1 1 (omega arith) (omega arith)
      (omega (arith, second_count))

free_page_sound_example :
    (p' : Pager) × (free_page third 1 ≡ ok p') × IsSound p' (1 ∷ []) × SamePage third p' 2
free_page_sound_example =
    free_page_sound third [] two_more.2 1 2 (omega arith) (omega (arith, third_count)) tt
      (omega arith) (omega (arith, third_count)) (λ e. omega arith)

allocate_page_new_example :
    (p' : Pager) × (allocate_page second ≡ ok (second.page_count, p'))
    × IsSound p' []
    × (p'.page_count ≡ second.page_count + 1)
    × (read_page p' second.page_count ≡ ok (replicate page_bytes 0))
    × SamePage second p' 1
allocate_page_new_example =
    allocate_page_new second [] one_more.2 1 refl (omega (arith, second_count)) (omega arith)
      (omega (arith, second_count))

allocate_page_reused_example :
    (p' : Pager) × (allocate_page freed.0 ≡ ok (1, p'))
    × IsSound p' []
    × (p'.page_count ≡ freed.0.page_count)
    × SamePage freed.0 p' 1
allocate_page_reused_example =
    allocate_page_reused freed.0 (1 ∷ []) freed.2 1 1 [] refl (omega arith) freed.2.chain.2
