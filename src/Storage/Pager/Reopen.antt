-- ===== src/Storage/Pager/Reopen.antt =====
-- What `Open` makes of a sound database file, and of an empty one.
use my_sqlight.Maps.{bytes_eq_iff}
use my_sqlight.Files.Slices.{read_at-take}
use my_sqlight.Prelude.{
  false, ◌==◌, ◌∙◌, true, ok, length, ◌≤◌, take, ◌+◌, ◌≡◌, List, ℕ, arith, refl,
}
use my_sqlight.Bytes.{Bytes}
use my_sqlight.Bytes.Laws.{from_be-put_be}
use my_sqlight.Files.{read_full_long, read_at}
use my_sqlight.Storage.Pager.{bytes_beq, Pager, page_bytes, magic, load_header, open_pager}
use my_sqlight.Storage.Pager.Layout.{IsSound}

-- The part of the header page that `Open` looks at is the file's.
module _ (p : Pager) (free : List ℕ) (h : IsSound p free) where
  open h use {room, some_page, count_fits, root_fits, head_fits, header}

  one_page : page_bytes ≤ length p.pages
  one_page = omega arith

  first_page : Bytes
  first_page = take page_bytes p.pages

  in_header : (o n : ℕ) → o + n ≤ page_bytes → read_at first_page o n ≡ read_at p.pages o n
  unfolding first_page
  in_header o n le = read_at-take o n page_bytes p.pages le one_page

  load_header-first_page : load_header p.pages first_page ≡ ok p
  unfolding load_header read_at
  load_header-first_page =
      rw
        (
          is_magic,
          in_header 27 4 (omega arith) ∙ header.has_head,
          in_header 11 4 (omega arith) ∙ header.has_count,
          in_header 15 4 (omega arith) ∙ header.has_root,
          from_be-put_be 4 p.free_list_head head_fits,
          from_be-put_be 4 p.page_count count_fits,
          from_be-put_be 4 p.catalog_root_page_id root_fits,
        )
        refl
    where
      is_magic : bytes_beq (take 9 first_page) magic ≡ true
      is_magic = (bytes_eq_iff _ _).1 (in_header 0 9 (omega arith) ∙ header.has_magic)

  -- A sound database file, opened again, is the pager that it was: the page count, the catalog's
  -- root and the head of the free list are those in memory.
  pub open_pager_sound : open_pager p.pages ≡ ok p
  unfolding open_pager first_page
  open_pager_sound =
      rw (not_empty, read_full_long page_bytes p.pages one_page, open_pager) load_header-first_page
    where
      not_empty : (length p.pages == 0) ≡ false
      not_empty = ground (arith, one_page)
