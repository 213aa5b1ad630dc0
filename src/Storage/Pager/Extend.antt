-- ===== src/Storage/Pager/Extend.antt =====
-- The branch of `AllocatePage` that adds a page to the file.
use my_sqlight.Prelude.{
  ◌%◌, subst, ◌+◌, sym, ap, ◌∙◌, ok, ◌^◌, ◌≤◌, ◌*◌, length-replicate, ◌<◌, replicate, List, ◌≡◌,
  length, ℕ, arith, [], refl, inl, inr,
}
use my_sqlight.Bytes.{Bytes, put_be}
use my_sqlight.Bytes.Laws.{length-put_be}
use my_sqlight.Files.{write_at}
use my_sqlight.Files.Slices.{length-write_at, read_at-write_at, read_at-write_at-Apart}
use my_sqlight.Storage.Pager.{Pager, page_bytes, read_page, allocate_page, extend_file}
use my_sqlight.Storage.Pager.Free.{Keeps, SamePage}
use my_sqlight.Storage.Pager.Access.{page_at, read_page-page_at, read_page_sound}
use my_sqlight.Storage.Pager.Header.{HasHeader-behind, HasHeader-count}
use my_sqlight.Storage.Pager.Layout.{IsSound, Chain}

module _ (p : Pager) (free : List ℕ) (h : IsSound p free) where
  open h use {room, some_page, count_fits, root_fits, head_fits, header, chain}

  -- The file with one page more.
  abbrev extended : Bytes → Pager
  extended bs = record p {
    pages =
        write_at (write_at p.pages (p.page_count * page_bytes) bs) 11 (put_be 4 (p.page_count + 1));
    page_count = p.page_count + 1;
  }

  module _ (bs : Bytes) (whole : length bs ≡ page_bytes) (none_free : p.free_list_head ≡ 0)
      (fits : p.page_count + 1 < 2 ^ 32) where
    abbrev longer : Bytes
    longer = write_at p.pages (p.page_count * page_bytes) bs

    extended_room :
        (p.page_count + 1) * page_bytes ≤ length (write_at longer 11 (put_be 4 (p.page_count + 1)))
    extended_room = omega (
      arith,
      length-write_at longer (put_be 4 (p.page_count + 1)) 11,
      length-write_at p.pages bs (p.page_count * page_bytes),
    )

    extended-IsSound : IsSound (extended bs) []
    extended-IsSound = record {
      room = extended_room;
      some_page = omega arith;
      count_fits = fits;
      root_fits = root_fits;
      head_fits = head_fits;
      header =
          HasHeader-count longer p.page_count p.catalog_root_page_id p.free_list_head
            (omega (arith, length-write_at p.pages bs (p.page_count * page_bytes)))
            (HasHeader-behind p.pages p.page_count p.catalog_root_page_id p.free_list_head
              (omega arith) header (p.page_count * page_bytes) bs (omega arith))
            (p.page_count + 1);
      chain = none_free;
    }

    -- What stands behind the header is not touched by the new page count.
    extended-page_at :
        (q : ℕ) → 0 < q → q < p.page_count + 1 → read_page (extended bs) q ≡ ok (page_at longer q)
    extended-page_at q positive lt =
        read_page-page_at (extended bs) q lt extended_room
        ∙ ap ok (
            read_at-write_at-Apart longer (put_be 4 (p.page_count + 1)) 11 (q * page_bytes)
              page_bytes (inr (omega (arith, length-put_be 4 (p.page_count + 1))))
              (omega (arith, length-write_at p.pages bs (p.page_count * page_bytes))))

    extended-new_page : read_page (extended bs) p.page_count ≡ ok bs
    extended-new_page =
        extended-page_at p.page_count some_page (omega arith)
        ∙ ap ok (read_at-write_at p.pages bs (p.page_count * page_bytes) page_bytes (sym whole))

    extended-old_page : (q : ℕ) → 0 < q → q < p.page_count → SamePage p (extended bs) q
    extended-old_page q positive lt =
        extended-page_at q positive (omega arith)
        ∙ ap ok (
            read_at-write_at-Apart p.pages bs (p.page_count * page_bytes) (q * page_bytes)
              page_bytes (inl (omega arith)) (omega arith))
        ∙ sym (read_page_sound p free h q lt)

  pub extend_file_outcome :
      free ≡ []
      → p.page_count + 1 < 2 ^ 32
      → (p' : Pager) × (allocate_page p ≡ ok (p.page_count, p'))
        × IsSound p' []
        × (p'.page_count ≡ p.page_count + 1)
        × (read_page p' p.page_count ≡ ok (replicate page_bytes 0))
        × Keeps p free h p'
  unfolding allocate_page extend_file
  extend_file_outcome e fits = (
    extended zeros,
    rw (none_free, allocate_page) (rw (counted, extend_file) refl),
    extended-IsSound zeros whole none_free fits,
    refl,
    extended-new_page zeros whole none_free fits,
    extended-old_page zeros whole none_free fits,
  )
    where
      zeros : Bytes
      zeros = replicate page_bytes 0

      whole : length zeros ≡ page_bytes
      whole = length-replicate {A = ℕ} page_bytes 0

      none_free : p.free_list_head ≡ 0
      none_free = subst (Chain p.pages p.page_count p.free_list_head) e chain

      counted : (p.page_count + 1) % 2 ^ 32 ≡ p.page_count + 1
      counted = omega arith

  -- `AllocatePage` with no free page succeeds and adds a page of zero bytes behind the last one, as
  -- long as the page count fits its 32 bits. The file stays sound, and any page but the header
  -- is read as before.
  pub allocate_page_new :
      (q : ℕ)
      → free ≡ []
      → p.page_count + 1 < 2 ^ 32
      → 0 < q
      → q < p.page_count
      → (p' : Pager) × (allocate_page p ≡ ok (p.page_count, p'))
        × IsSound p' []
        × (p'.page_count ≡ p.page_count + 1)
        × (read_page p' p.page_count ≡ ok (replicate page_bytes 0))
        × SamePage p p' q
  allocate_page_new q e fits positive lt =
      let (p', done, sound, count, new, same) = extend_file_outcome e fits in
      (p', done, sound, count, new, same q positive lt)
