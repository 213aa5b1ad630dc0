-- ===== src/Storage/Pager/Reuse.antt =====
-- The branch of `AllocatePage` that hands out the first free page.
use my_sqlight.Prelude.{
  subst, sym, ap, ◌∙◌, ok, ◌^◌, ◌*◌, ◌<◌, List, ◌≡◌, ℕ, arith, ◌∷◌, refl, false, ◌==◌,
}
use my_sqlight.Bytes.{put_be, from_be}
use my_sqlight.Bytes.Laws.{from_be-put_be}
use my_sqlight.Files.{read_at}
use my_sqlight.Files.Slices.{read_at_front, read_at-prefix}
use my_sqlight.Storage.Pager.{Pager, page_bytes, allocate_page, reuse_page, write_free_list_head}
use my_sqlight.Storage.Pager.Access.{page_at, read_page-page_at, read_page_sound}
use my_sqlight.Storage.Pager.Layout.{IsSound, Chain}
use my_sqlight.Storage.Pager.Free.{SamePage, Keeps, write_free_list_head_sound}

module _ (p : Pager) (free : List ℕ) (h : IsSound p free) where
  open h use {room, some_page, count_fits, root_fits, head_fits, header, chain}

  reuse_page_head :
      (after : ℕ)
      → p.free_list_head < p.page_count
      → after < 2 ^ 32
      → read_at p.pages (p.free_list_head * page_bytes) 4 ≡ put_be 4 after
      → reuse_page p
        ≡ ok (p.free_list_head, write_free_list_head (record p { free_list_head = after }))
  unfolding reuse_page
  reuse_page_head after lt fits link =
      rw (read_page_sound p free h p.free_list_head lt, linked_to) refl
    where
      linked_to : from_be 0 (read_at (page_at p.pages p.free_list_head) 0 4) ≡ after
      linked_to =
          ap (from_be 0) (
            read_at_front _ 4
            ∙ read_at-prefix p.pages (p.free_list_head * page_bytes) 4 page_bytes (omega arith)
            ∙ link)
          ∙ from_be-put_be 4 after fits

  allocate_page_head :
      (id after : ℕ)
      → p.free_list_head ≡ id
      → 0 < id
      → id < p.page_count
      → after < 2 ^ 32
      → read_at p.pages (id * page_bytes) 4 ≡ put_be 4 after
      → allocate_page p ≡ ok (id, write_free_list_head (record p { free_list_head = after }))
  unfolding allocate_page
  allocate_page_head id after e positive lt fits link =
      rw (some_free, allocate_page)
        (reuse_page_head after (omega arith) fits
            (ap (λ i. read_at p.pages (i * page_bytes) 4) e ∙ link)
          ∙ ap (λ i. ok (i, write_free_list_head (record p { free_list_head = after }))) e)
    where
      some_free : (p.free_list_head == 0) ≡ false
      some_free = ground (arith, e)

  pub reuse_page_outcome :
      (id : ℕ) (others : List ℕ)
      → free ≡ id ∷ others
      → (p' : Pager) × (allocate_page p ≡ ok (id, p'))
        × IsSound p' others
        × (p'.page_count ≡ p.page_count)
        × Keeps p free h p'
  unfolding write_free_list_head
  reuse_page_outcome id others e =
      let (head_is, positive, lt, (after, fits, link, rest)) =
        subst (Chain p.pages p.page_count p.free_list_head) e chain in
      let popped : Pager = record p { free_list_head = after } in
      let (sound, same) =
        write_free_list_head_sound popped p.free_list_head others room some_page count_fits
          root_fits fits header rest in
      (
        write_free_list_head popped,
        allocate_page_head id after head_is positive lt fits link,
        sound,
        refl,
        λ q positive' lt'.
            same q positive' lt'
            ∙ read_page-page_at popped q lt' room
            ∙ sym (read_page_sound p free h q lt'),
      )

  -- `AllocatePage` with free pages succeeds and hands out the first of them, the one freed last. The
  -- file stays sound with the other free pages, and any page but the header is read as before.
  pub allocate_page_reused :
      (id q : ℕ) (others : List ℕ)
      → free ≡ id ∷ others
      → 0 < q
      → q < p.page_count
      → (p' : Pager) × (allocate_page p ≡ ok (id, p'))
        × IsSound p' others
        × (p'.page_count ≡ p.page_count)
        × SamePage p p' q
  allocate_page_reused id q others e positive' lt' =
      let (p', done, sound, count, same) = reuse_page_outcome id others e in
      (p', done, sound, count, same q positive' lt')
