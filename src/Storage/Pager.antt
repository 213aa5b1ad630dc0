-- ===== src/Storage/Pager.antt =====
-- The pager of storage/pager.go: the database file as numbered pages, with a header in page 0 and
-- the free pages linked through their first four bytes.
-- The file is its bytes. Sync and Close are not modelled, nor is an error that the operating system
-- returns: what is left of a call's errors is returned before anything is changed.
pub mod Header
pub mod Layout
pub mod Free
pub mod Reuse
pub mod Extend
pub mod Access
pub mod Reopen
pub mod Create
pub mod Store
pub mod History
use my_sqlight.Maps.{bytes_beq}
use my_sqlight.Prelude.{
  ◌>>=◌, err, take, ok, ◌==◌, ltb, length, [], if◌then◌else◌, ◌∷◌, replicate, Result, ℕ, ◌+◌, ◌*◌,
  ◌%◌, ◌^◌,
}
use my_sqlight.Bytes.{Bytes, put_be, from_be}
use my_sqlight.Files.{full, eof, unexpected_eof, read_full, write_at, read_at}

abbrev pub page_bytes : ℕ
page_bytes = 4096

-- "MYSQLIGHT"
abbrev pub magic : Bytes
magic = 77 ∷ 89 ∷ 83 ∷ 81 ∷ 76 ∷ 73 ∷ 71 ∷ 72 ∷ 84 ∷ []

pub record Pager : Type 0 where
  pub pages : Bytes
  pub free_list_head : ℕ
  pub page_count : ℕ
  pub catalog_root_page_id : ℕ

-- The messages of the pager's errors, and the errors of a read at the end of the file.
pub data PagerError : Type 0 where
  page_too_big page_unknown bad_length bad_magic short_file : PagerError

-- `createHeader`
unfoldable pub create_header : ℕ → ℕ → ℕ → ℕ → Bytes
create_header page_count catalog_id wal_lsn free_list_head =
    let header = replicate page_bytes 0 in
    let header = write_at header 0 magic in
    let header = write_at header 9 (put_be 2 page_bytes) in
    let header = write_at header 11 (put_be 4 page_count) in
    let header = write_at header 15 (put_be 4 catalog_id) in
    let header = write_at header 19 (put_be 8 wal_lsn) in
    write_at header 27 (put_be 4 free_list_head)

-- What `Open` loads from the header page.
unfoldable pub load_header : Bytes → Bytes → Result PagerError Pager
load_header file buffer =
    if bytes_beq (take 9 buffer) magic
    then ok (record {
      pages = file;
      free_list_head = from_be 0 (read_at buffer 27 4);
      page_count = from_be 0 (read_at buffer 11 4);
      catalog_root_page_id = from_be 0 (read_at buffer 15 4);
    })
    else err bad_magic

-- `Open` of a file with these bytes.
unfoldable pub open_pager : Bytes → Result PagerError Pager
open_pager file =
    if length file == 0
    then ok (record {
      pages = write_at file 0 (create_header 1 0 0 0);
      free_list_head = 0;
      page_count = 1;
      catalog_root_page_id = 0;
    })
    else elim (read_full page_bytes file) [
      | full buffer rest ↦ load_header file buffer
      | eof ↦ err short_file
      | unexpected_eof ↦ err short_file
    ]

-- `ReadPage`; `ReadAt` reports an error where it reads less than a page.
unfoldable pub read_page : Pager → ℕ → Result PagerError Bytes
read_page p page_id =
    if ltb page_id p.page_count
    then (let buffer = read_at p.pages (page_id * page_bytes) page_bytes in
        if length buffer == page_bytes then ok buffer else err short_file)
    else err page_too_big

-- `WritePage`
unfoldable pub write_page : Pager → ℕ → Bytes → Result PagerError Pager
write_page p page_id data_ =
    if ltb page_id p.page_count
    then (if length data_ == page_bytes
        then ok (record p { pages = write_at p.pages (page_id * page_bytes) data_ })
        else err bad_length)
    else err page_unknown

-- `writeFreeListHead`
unfoldable pub write_free_list_head : Pager → Pager
write_free_list_head p = record p { pages = write_at p.pages 27 (put_be 4 p.free_list_head) }

-- The branch of `AllocatePage` that takes the first free page.
unfoldable pub reuse_page : Pager → Result PagerError (ℕ × Pager)
reuse_page p = do
  buffer ← read_page p p.free_list_head
  ok (
    p.free_list_head,
    write_free_list_head (record p { free_list_head = from_be 0 (read_at buffer 0 4) }),
  )

-- The branch that adds a page to the file, and the new page count to the header.
unfoldable pub extend_file : Pager → ℕ × Pager
extend_file p =
    let file = write_at p.pages (p.page_count * page_bytes) (replicate page_bytes 0) in
    let count = (p.page_count + 1) % 2 ^ 32 in
    (p.page_count, record p { pages = write_at file 11 (put_be 4 count); page_count = count })

-- `AllocatePage`
unfoldable pub allocate_page : Pager → Result PagerError (ℕ × Pager)
allocate_page p = if p.free_list_head == 0 then ok (extend_file p) else reuse_page p

-- `FreePage`
unfoldable pub free_page : Pager → ℕ → Result PagerError Pager
free_page p page_id = do
  p' ← write_page p page_id (write_at (replicate page_bytes 0) 0 (put_be 4 p.free_list_head))
  ok (write_free_list_head (record p' { free_list_head = page_id }))

-- `SetCatalogRootPageID`
unfoldable pub set_catalog_root_page_id : Pager → ℕ → Pager
set_catalog_root_page_id p id = record p {
  pages = write_at p.pages 15 (put_be 4 id);
  catalog_root_page_id = id;
}
