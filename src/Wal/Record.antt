-- ===== src/Wal/Record.antt =====
-- Log records and their bytes: `Record`, `encodeRecord`, and the reading of one record in the loop
-- of `ReadAll` (wal/wal.go).
use my_sqlight.Prelude.{
  ℕ, Bool, true, false, Option, none, some, [], ◌∷◌, ◌++◌, get_or, take, drop, ◌==◌, if◌then◌else◌,
}
use my_sqlight.Bytes.{Bytes, put_be, from_be}
use my_sqlight.Files.{full, eof, unexpected_eof, read_full}
use my_sqlight.Wal.Crc.{crc32}

abbrev pub page_size : ℕ
page_size = 4096

pub data RecordType : Type 0 where
  record_begin record_commit record_abort record_update : RecordType

pub record Record : Type 0 where
  pub lsn : ℕ
  pub txn_id : ℕ
  pub record_type : RecordType
  pub page_id : ℕ
  pub before_image : Bytes
  pub after_image : Bytes
  pub checksum : ℕ

unfoldable pub type_code : RecordType → ℕ
type_code record_begin = 0
type_code record_commit = 1
type_code record_abort = 2
type_code record_update = 3

unfoldable pub is_update : RecordType → Bool
is_update record_update = true
is_update _ = false

-- The first 21 bytes.
unfoldable pub record_header : Record → Bytes
record_header r =
    put_be 8 r.lsn ++ (put_be 8 r.txn_id ++ (type_code r.record_type ∷ put_be 4 r.page_id))

-- All that the checksum covers.
unfoldable pub record_body : Record → Bytes
record_body r =
    record_header r ++ (if is_update r.record_type then r.before_image ++ r.after_image else [])

unfoldable pub encode_record : Record → Bytes × ℕ
encode_record r = let sum = crc32 (record_body r) in (record_body r ++ put_be 4 sum, sum)

-- What the switch on the type byte tells apart.
unfoldable pub type_of_code : ℕ → Option RecordType
type_of_code b =
    if b == 3
    then some record_update
    else if b == 2
    then some record_abort
    else if b == 0
    then some record_begin
    else if b == 1
    then some record_commit
    else none

-- One round of the loop of `ReadAll`: the loop is left, `ReadAll` returns an error, or a record is
-- appended. Each carries what the file still holds.
pub data Round : Type 0 where
  stop : Bytes → Round
  fail : Bytes → Round
  next : Record → Bytes → Round

-- The four bytes of the checksum, and the test of it over `buffer`.
unfoldable pub read_checksum : Bytes → (ℕ → Record) → Bytes → Round
read_checksum buffer found bs = elim (read_full 4 bs) [
  | eof ↦ stop []
  | unexpected_eof ↦ stop []
  | full crc rest ↦
      if crc32 buffer == from_be 0 crc then next (found (from_be 0 crc)) rest else stop rest
]

-- The record that the fields of a header begin; the images and the checksum are still to come.
unfoldable pub header_record : RecordType → Bytes → Bytes → Bytes → ℕ → Record
header_record t buffer before after sum = record {
  lsn = from_be 0 (take 8 buffer);
  txn_id = from_be 0 (take 8 (drop 8 buffer));
  record_type = t;
  page_id = from_be 0 (take 4 (drop 17 buffer));
  before_image = before;
  after_image = after;
  checksum = sum;
}

unfoldable pub read_after : Bytes → Bytes → Bytes → Round
read_after buffer before bs = elim (read_full page_size bs) [
  | eof ↦ stop []
  | unexpected_eof ↦ stop []
  | full after rest ↦
      read_checksum (buffer ++ (before ++ after)) (header_record record_update buffer before after)
        rest
]

unfoldable pub read_before : Bytes → Bytes → Round
read_before buffer bs = elim (read_full page_size bs) [
  | eof ↦ stop []
  | unexpected_eof ↦ stop []
  | full before rest ↦ read_after buffer before rest
]

-- The switch on the type byte; the byte of an unknown type leaves the loop.
unfoldable pub read_typed : Option RecordType → Bytes → Bytes → Round
read_typed none buffer rest = stop rest
read_typed (some record_update) buffer rest = read_before buffer rest
read_typed (some record_abort) buffer rest =
    read_checksum buffer (header_record record_abort buffer [] []) rest
read_typed (some record_begin) buffer rest =
    read_checksum buffer (header_record record_begin buffer [] []) rest
read_typed (some record_commit) buffer rest =
    read_checksum buffer (header_record record_commit buffer [] []) rest

-- Only a header that comes up short is an error; an empty rest is the end of the log.
unfoldable pub read_record : Bytes → Round
read_record bs = elim (read_full 21 bs) [
  | eof ↦ stop []
  | unexpected_eof ↦ fail []
  | full buffer rest ↦ read_typed (type_of_code (get_or buffer 16 0)) buffer rest
]
