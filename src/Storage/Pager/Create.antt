-- ===== src/Storage/Pager/Create.antt =====
-- The database file that `Open` creates.
use my_sqlight.Prelude.{
  subst, ◌∙◌, ap, ◌≤◌, length-replicate, ◌+◌, ok, replicate, sym, length, ◌≡◌, ℕ, arith, [], refl,
  inl,
}
use my_sqlight.Bytes.{Bytes, put_be}
use my_sqlight.Bytes.Laws.{length-put_be}
use my_sqlight.Files.{write_at_end, write_at, read_at}
use my_sqlight.Files.Slices.{length-write_at, read_at-write_at, read_at-write_at-Apart}
use my_sqlight.Storage.Pager.{Pager, page_bytes, magic, create_header, open_pager}
use my_sqlight.Storage.Pager.Layout.{HasHeader, IsSound}

write_at-whole :
    (page bs : Bytes) (o n : ℕ)
    → length page ≡ page_bytes
    → length bs ≡ n
    → o + n ≤ page_bytes
    → length (write_at page o bs) ≡ page_bytes
write_at-whole page bs o n h k le = omega (arith, length-write_at page bs o)

-- What an earlier write left stands where a later one is apart from it.
still :
    (page bs field : Bytes) (o n p m : ℕ)
    → length page ≡ page_bytes
    → length bs ≡ n
    → p + m ≤ o
    → o ≤ page_bytes
    → read_at page p m ≡ field
    → read_at (write_at page o bs) p m ≡ field
still page bs field o n p m h k le fits e =
    read_at-write_at-Apart page bs o p m (inl le) (omega arith) ∙ e

module _ (count root lsn head : ℕ) (blank : Bytes) (whole : length blank ≡ page_bytes) where
  abbrev with_magic : Bytes
  with_magic = write_at blank 0 magic

  abbrev with_size : Bytes
  with_size = write_at with_magic 9 (put_be 2 page_bytes)

  abbrev with_count : Bytes
  with_count = write_at with_size 11 (put_be 4 count)

  abbrev with_root : Bytes
  with_root = write_at with_count 15 (put_be 4 root)

  abbrev with_lsn : Bytes
  with_lsn = write_at with_root 19 (put_be 8 lsn)

  abbrev with_head : Bytes
  with_head = write_at with_lsn 27 (put_be 4 head)

  magic_whole : length with_magic ≡ page_bytes
  magic_whole = write_at-whole blank magic 0 9 whole refl (omega arith)

  size_whole : length with_size ≡ page_bytes
  size_whole = write_at-whole with_magic _ 9 2 magic_whole (length-put_be 2 _) (omega arith)

  count_whole : length with_count ≡ page_bytes
  count_whole = write_at-whole with_size _ 11 4 size_whole (length-put_be 4 _) (omega arith)

  root_whole : length with_root ≡ page_bytes
  root_whole = write_at-whole with_count _ 15 4 count_whole (length-put_be 4 _) (omega arith)

  lsn_whole : length with_lsn ≡ page_bytes
  lsn_whole = write_at-whole with_root _ 19 8 root_whole (length-put_be 8 _) (omega arith)

  head_whole : length with_head ≡ page_bytes
  head_whole = write_at-whole with_lsn _ 27 4 lsn_whole (length-put_be 4 _) (omega arith)

  -- Past the three fields behind the page count.
  past_count :
      (p m : ℕ) (field : Bytes)
      → p + m ≤ 15
      → read_at with_count p m ≡ field
      → read_at with_head p m ≡ field
  past_count p m field le e =
      still with_lsn _ field 27 4 p m lsn_whole (length-put_be 4 _) (omega arith) (omega arith) (
        still with_root _ field 19 8 p m root_whole (length-put_be 8 _) (omega arith) (omega arith)
          (still with_count _ field 15 4 p m count_whole (length-put_be 4 _) (omega arith)
            (omega arith) e))

  header_written : HasHeader with_head count root head
  header_written = record {
    has_magic = past_count 0 9 magic (omega arith) (
        still with_size _ magic 11 4 0 9 size_whole (length-put_be 4 _) (omega arith) (omega arith)
          (still with_magic _ magic 9 2 0 9 magic_whole (length-put_be 2 _) (omega arith)
            (omega arith) (read_at-write_at blank magic 0 9 refl)));
    has_count =
        past_count 11 4 _ (omega arith)
          (read_at-write_at with_size (put_be 4 count) 11 4 (sym (length-put_be 4 count)));
    has_root =
        still with_lsn _ _ 27 4 15 4 lsn_whole (length-put_be 4 _) (omega arith) (omega arith) (
          still with_root _ _ 19 8 15 4 root_whole (length-put_be 8 _) (omega arith) (omega arith)
            (read_at-write_at with_count (put_be 4 root) 15 4 (sym (length-put_be 4 root))));
    has_head = read_at-write_at with_lsn (put_be 4 head) 27 4 (sym (length-put_be 4 head));
  }

-- `createHeader` writes a page with the fields in their places.
create_header_written :
    (count root lsn head : ℕ)
    → HasHeader (create_header count root lsn head) count root head
      × (length (create_header count root lsn head) ≡ page_bytes)
unfolding create_header
create_header_written count root lsn head =
    (header_written count root lsn head blank whole, head_whole count root lsn head blank whole)
  where
    blank : Bytes
    blank = replicate page_bytes 0

    whole : length blank ≡ page_bytes
    whole = length-replicate {A = ℕ} page_bytes 0

-- `Open` of an empty file creates a sound database of one page, with no free page.
pub open_pager_new : (p : Pager) × (open_pager [] ≡ ok p) × IsSound p [] × (p.page_count ≡ 1)
unfolding open_pager
open_pager_new = (
  created,
  refl,
  record {
    room = omega (arith, ap length is_header, (create_header_written 1 0 0 0).1);
    some_page = omega arith;
    count_fits = omega arith;
    root_fits = omega arith;
    head_fits = omega arith;
    header = subst (λ file. HasHeader file 1 0 0) (sym is_header) (create_header_written 1 0 0 0).0;
    chain = refl;
  },
  refl,
)
  where
    created : Pager
    created = record {
      pages = write_at [] 0 (create_header 1 0 0 0);
      free_list_head = 0;
      page_count = 1;
      catalog_root_page_id = 0;
    }

    is_header : write_at [] 0 (create_header 1 0 0 0) ≡ create_header 1 0 0 0
    is_header = write_at_end [] (create_header 1 0 0 0) 0 refl
