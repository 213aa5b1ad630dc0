-- ===== src/Wal/RoundTrip.antt =====
-- What the loop of `ReadAll` makes of the bytes that `encodeRecord` wrote.
use my_sqlight.Prelude.{
  ◌==◌, take_whole, ==_iff, ℕ, ◌^◌, ◌<◌, ◌≡◌, refl, ap, ◌∙◌, arith, some, [], ◌∷◌, ◌++◌, append-nil,
  append_assoc, length, length-append, get_or, take, drop, take-append_of, drop-append_of,
  drop-append_past, get_or-append_past, if◌then◌else◌,
}
use my_sqlight.Bytes.{Bytes, put_be}
use my_sqlight.Bytes.Laws.{length-put_be, from_be-put_be}
use my_sqlight.Files.{read_full-append}
use my_sqlight.Wal.Crc.{crc32, crc32-lt}
use my_sqlight.Wal.Record.{
  stop, Round, page_size, RecordType, record_begin, record_commit, record_abort, record_update,
  Record, type_code, is_update, record_header, record_body, encode_record, type_of_code, next,
  read_checksum, header_record, read_after, read_before, read_typed, read_record,
}

-- An update has two images of a page each.
abbrev pub HasImages : RecordType → Record → Type 0
HasImages record_update r = (length r.before_image ≡ page_size) × (length r.after_image ≡ page_size)
HasImages _ r = Unit

-- The fields are of their widths in the log.
pub record FitsRecord (r : Record) : Type 0 where
  pub lsn_fits : r.lsn < 2 ^ 64
  pub txn_fits : r.txn_id < 2 ^ 64
  pub page_fits : r.page_id < 2 ^ 32
  pub has_images : HasImages r.record_type r

-- What the log holds of a record: the images of an update, and the checksum.
unfoldable pub logged : Record → Record
logged r = record r {
  before_image = if is_update r.record_type then r.before_image else [];
  after_image = if is_update r.record_type then r.after_image else [];
  checksum = crc32 (record_body r);
}

pub length-record_header : (r : Record) → length (record_header r) ≡ 21
unfolding record_header
length-record_header r = omega (
  arith,
  length-append (put_be 8 r.lsn)
      (put_be 8 r.txn_id ++ (type_code r.record_type ∷ put_be 4 r.page_id)),
  length-append (put_be 8 r.txn_id) (type_code r.record_type ∷ put_be 4 r.page_id),
  length-put_be 8 r.lsn,
  length-put_be 8 r.txn_id,
  length-put_be 4 r.page_id,
)

pub header_fields :
    (r : Record)
    → (take 8 (record_header r) ≡ put_be 8 r.lsn)
      × (take 8 (drop 8 (record_header r)) ≡ put_be 8 r.txn_id)
      × (get_or (record_header r) 16 0 ≡ type_code r.record_type)
      × (take 4 (drop 17 (record_header r)) ≡ put_be 4 r.page_id)
unfolding record_header
header_fields r = (
  take-append_of 8 (put_be 8 r.lsn) after_lsn (length-put_be 8 r.lsn),
  rw (drop-append_of 8 (put_be 8 r.lsn) after_lsn (length-put_be 8 r.lsn))
      (take-append_of 8 (put_be 8 r.txn_id) after_txn (length-put_be 8 r.txn_id)),
  get_or-append_past 8 8 0 (put_be 8 r.lsn) after_lsn (length-put_be 8 r.lsn)
      ∙ get_or-append_past 8 0 0 (put_be 8 r.txn_id) after_txn (length-put_be 8 r.txn_id),
  rw
      (
        drop-append_past 8 9 (put_be 8 r.lsn) after_lsn (length-put_be 8 r.lsn),
        drop-append_past 8 1 (put_be 8 r.txn_id) after_txn (length-put_be 8 r.txn_id),
      )
      (take_whole 4 (put_be 4 r.page_id) (length-put_be 4 r.page_id)),
)
  where
    after_txn : Bytes
    after_txn = type_code r.record_type ∷ put_be 4 r.page_id

    after_lsn : Bytes
    after_lsn = put_be 8 r.txn_id ++ after_txn

pub type_of_code-type_code : (t : RecordType) → type_of_code (type_code t) ≡ some t
unfolding type_of_code type_code
type_of_code-type_code record_begin = refl
type_of_code-type_code record_commit = refl
type_of_code-type_code record_abort = refl
type_of_code-type_code record_update = refl

-- The fields of a header are those of its record.
header_record-record_header :
    (r : Record) (t : RecordType) (before after : Bytes) (sum : ℕ)
    → FitsRecord r
    → header_record t (record_header r) before after sum
      ≡ record r { record_type = t; before_image = before; after_image = after; checksum = sum }
unfolding header_record
header_record-record_header r t before after sum h =
    let (lsn, txn, _, page) = header_fields r in
    rw (
      lsn,
      txn,
      page,
      from_be-put_be 8 r.lsn h.lsn_fits,
      from_be-put_be 8 r.txn_id h.txn_fits,
      from_be-put_be 4 r.page_id h.page_fits,
    )

-- The test of the checksum decides between a record and the end of the log.
abbrev pub checked : Bytes → ℕ → (ℕ → Record) → Bytes → Round
checked buffer sum found rest = if crc32 buffer == sum then next (found sum) rest else stop rest

read_checksum-put_be :
    (buffer rest : Bytes) (found : ℕ → Record) (sum : ℕ)
    → sum < 2 ^ 32
    → read_checksum buffer found (put_be 4 sum ++ rest) ≡ checked buffer sum found rest
unfolding read_checksum
read_checksum-put_be buffer rest found sum h =
    rw (read_full-append 4 (put_be 4 sum) rest (length-put_be 4 sum), read_checksum)
      (rw (from_be-put_be 4 sum h))

read_before-append :
    (buffer before after rest : Bytes)
    → length before ≡ page_size
    → length after ≡ page_size
    → read_before buffer (before ++ (after ++ rest))
      ≡ read_checksum
          (buffer ++ (before ++ after))
          (header_record record_update buffer before after)
          rest
unfolding read_before read_after
read_before-append buffer before after rest hb ha =
    rw (read_full-append page_size before (after ++ rest) hb, read_before)
      (rw (read_full-append page_size after rest ha, read_after))

-- What stands between a header and its checksum, by the type.
abbrev pub image_bytes : RecordType → Record → Bytes
image_bytes t r = if is_update t then r.before_image ++ r.after_image else []

read_typed-image_bytes :
    (t : RecordType) (r : Record) (rest : Bytes) (sum : ℕ)
    → HasImages t r
    → sum < 2 ^ 32
    → read_typed (some t) (record_header r) (image_bytes t r ++ (put_be 4 sum ++ rest))
      ≡ checked
          (record_header r ++ image_bytes t r)
          sum
          (header_record t
            (record_header r)
            (if is_update t then r.before_image else [])
            (if is_update t then r.after_image else []))
          rest
unfolding read_typed is_update
read_typed-image_bytes record_begin r rest sum h hs =
    rw append-nil (read_checksum-put_be (record_header r) rest _ sum hs)
read_typed-image_bytes record_commit r rest sum h hs =
    rw append-nil (read_checksum-put_be (record_header r) rest _ sum hs)
read_typed-image_bytes record_abort r rest sum h hs =
    rw append-nil (read_checksum-put_be (record_header r) rest _ sum hs)
read_typed-image_bytes record_update r rest sum (hb, ha) hs = rw append_assoc (
    read_before-append (record_header r) r.before_image r.after_image _ hb ha
    ∙ read_checksum-put_be (record_header r ++ (r.before_image ++ r.after_image)) rest _ sum hs)

pub read_record-record_header :
    (r : Record) (rest : Bytes)
    → read_record (record_header r ++ rest) ≡ read_typed (some r.record_type) (record_header r) rest
unfolding read_record
read_record-record_header r rest =
    let (_, _, code, _) = header_fields r in
    rw (read_full-append 21 (record_header r) rest (length-record_header r), read_record)
      (rw (code, type_of_code-type_code))

-- A record's bytes with any checksum behind them: the record if the checksum is right, and the end
-- of the log if not.
pub read_record-record_body :
    (r : Record) (rest : Bytes) (sum : ℕ)
    → FitsRecord r
    → sum < 2 ^ 32
    → read_record (record_body r ++ (put_be 4 sum ++ rest))
      ≡ checked (record_body r) sum (λ s. record (logged r) { checksum = s }) rest
unfolding record_body logged
read_record-record_body r rest sum h hs =
    rw (append_assoc (record_header r) (image_bytes r.record_type r)) (
      read_record-record_header r _
      ∙ read_typed-image_bytes r.record_type r rest sum h.has_images hs
      ∙ ap (λ found. if crc32 (record_body r) == sum then next found rest else stop rest)
          (header_record-record_header r r.record_type _ _ _ h))

-- One round of `ReadAll` reads back one written record, and leaves what follows.
pub read_record-encode_record :
    (r : Record) (rest : Bytes)
    → FitsRecord r
    → read_record ((encode_record r).0 ++ rest) ≡ next (logged r) rest
unfolding encode_record logged
read_record-encode_record r rest h =
    rw (append_assoc (record_body r) (put_be 4 sum) rest) (
      read_record-record_body r rest sum h (crc32-lt (record_body r))
      ∙ rw ((==_iff sum sum).1 refl))
  where
    sum : ℕ
    sum = crc32 (record_body r)
