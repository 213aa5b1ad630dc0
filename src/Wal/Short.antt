-- ===== src/Wal/Short.antt =====
-- The reads of `ReadAll` on a record whose write was cut short by a crash.
use my_sqlight.Prelude.{
  take-append_le, length-drop, ℕ, ◌+◌, ◌≤◌, ◌<◌, ◌≡◌, ◌≢◌, refl, sym, ap, ◌∙◌, arith, Option, none,
  some, [], ◌∷◌, ◌++◌, append_assoc, length, length-append, drop, take-append_of, take-append-drop,
  ltb, ◌==◌, if◌then◌else◌, Bool-cases, inl, inr,
}
use my_sqlight.Bytes.{Bytes, put_be}
use my_sqlight.Bytes.Laws.{length-put_be}
use my_sqlight.Files.{read_full-short, read_full-nil, read_full-cases}
use my_sqlight.Wal.Crc.{crc32}
use my_sqlight.Wal.Record.{
  page_size, RecordType, record_begin, record_commit, record_abort, record_update, Record,
  is_update, record_header, record_body, encode_record, Round, stop, fail, read_checksum,
  read_after, read_before, read_typed, read_record,
}
use my_sqlight.Wal.Log.{write_failed, WalError, unexpected_end}
use my_sqlight.Wal.RoundTrip.{
  HasImages, FitsRecord, length-record_header, read_record-record_header,
}

-- How many bytes follow the header of a record of each type.
abbrev body_rest : RecordType → ℕ
body_rest record_update = page_size + page_size + 4
body_rest _ = 4

read_checksum-short :
    (buffer : Bytes) (found : ℕ → Record) (bs : Bytes)
    → length bs < 4
    → read_checksum buffer found bs ≡ stop []
unfolding read_checksum
read_checksum-short buffer found bs h = elim (read_full-cases 4 bs) [
  | inl e ↦ rw (e, read_checksum)
  | inr (inl e) ↦ rw (e, read_checksum)
  | inr (inr (front, left, e, _, shorter)) ↦ absurd (omega arith)
]

read_after-short :
    (buffer before bs : Bytes) → length bs < page_size + 4 → read_after buffer before bs ≡ stop []
unfolding read_after
read_after-short buffer before bs h = elim (read_full-cases page_size bs) [
  | inl e ↦ rw (e, read_after)
  | inr (inl e) ↦ rw (e, read_after)
  | inr (inr (front, left, e, _, shorter)) ↦
      rw (e, read_after) (read_checksum-short _ _ left (omega arith))
]

read_before-short :
    (buffer bs : Bytes) → length bs < page_size + page_size + 4 → read_before buffer bs ≡ stop []
unfolding read_before
read_before-short buffer bs h = elim (read_full-cases page_size bs) [
  | inl e ↦ rw (e, read_before)
  | inr (inl e) ↦ rw (e, read_before)
  | inr (inr (front, left, e, _, shorter)) ↦
      rw (e, read_before) (read_after-short buffer front left (omega arith))
]

read_typed-short :
    (t : RecordType) (buffer bs : Bytes)
    → length bs < body_rest t
    → read_typed (some t) buffer bs ≡ stop []
unfolding read_typed
read_typed-short record_begin buffer bs h = read_checksum-short buffer _ bs h
read_typed-short record_commit buffer bs h = read_checksum-short buffer _ bs h
read_typed-short record_abort buffer bs h = read_checksum-short buffer _ bs h
read_typed-short record_update buffer bs h = read_before-short buffer bs h

length-images :
    (t : RecordType) (r : Record)
    → HasImages t r
    → length (if is_update t then r.before_image ++ r.after_image else []) + 4 ≡ body_rest t
unfolding is_update
length-images record_begin r h = refl
length-images record_commit r h = refl
length-images record_abort r h = refl
length-images record_update r h = omega (arith, length-append r.before_image r.after_image)

length-encode_record :
    (r : Record) → FitsRecord r → length (encode_record r).0 ≡ 21 + body_rest r.record_type
unfolding encode_record record_body
length-encode_record r h = omega (
  arith,
  length-append (record_body r) (put_be 4 (crc32 (record_body r))),
  length-append (record_header r)
      (if is_update r.record_type then r.before_image ++ r.after_image else []),
  length-record_header r,
  length-put_be 4 (crc32 (record_body r)),
  length-images r.record_type r h.has_images,
)

-- `front` is what a crash left of the write of `r`: its bytes up to a point before the last.
pub record Torn (r : Record) (front : Bytes) : Type 0 where
  pub lost : Bytes
  pub split : (encode_record r).0 ≡ front ++ lost
  pub some_lost : 0 < length lost

-- What `ReadAll` says of a torn record of so many bytes.
unfoldable pub torn_error : ℕ → Option WalError
torn_error n = if n == 0 then none else if ltb n 21 then some unexpected_end else none

-- The header of a record that is torn behind it.
Torn-header :
    (r : Record) (front : Bytes)
    → Torn r front
    → 21 ≤ length front
    → front ≡ record_header r ++ drop 21 front
unfolding encode_record record_body
Torn-header r front torn long =
    sym (take-append-drop 21 front)
    ∙ ap (λ header. header ++ drop 21 front)
        (sym (take-append_le 21 front torn.lost long)
          ∙ rw (← torn.split, append_assoc (record_header r))
              (take-append_of 21 (record_header r) _ (length-record_header r)))

read_record-Torn :
    (r : Record) (front : Bytes)
    → FitsRecord r
    → Torn r front
    → 21 ≤ length front
    → read_record front ≡ stop []
read_record-Torn r front h torn long =
    ap read_record (Torn-header r front torn long)
    ∙ read_record-record_header r (drop 21 front)
    ∙ read_typed-short r.record_type (record_header r) (drop 21 front) (
        omega (
          arith,
          length-drop 21 front,
          length-encode_record r h,
          ap length torn.split,
          length-append front torn.lost,
          torn.some_lost,
        ))

-- One round on a torn record.
abbrev pub torn_round : Option WalError → Round
torn_round none = stop []
torn_round (some e) = fail []

torn_error_short : (n : ℕ) → 0 < n → n < 21 → torn_error n ≡ some unexpected_end
unfolding torn_error
torn_error_short n pos h = ground arith

torn_error_long : (n : ℕ) → 21 ≤ n → torn_error n ≡ none
unfolding torn_error
torn_error_long n h = ground arith

pub read_record-torn_round :
    (r : Record) (front : Bytes)
    → FitsRecord r
    → Torn r front
    → read_record front ≡ torn_round (torn_error (length front))
unfolding torn_error read_record
read_record-torn_round r [] h torn = rw (read_full-nil 21 (omega arith), read_record)
read_record-torn_round r (b ∷ bs) h torn = elim (Bool-cases (ltb (length (b ∷ bs)) 21)) [
  | inl short ↦
      let lt : length (b ∷ bs) < 21 = ground arith in
      rw (read_full-short 21 b bs lt, read_record)
        (rw (torn_error_short (length (b ∷ bs)) (omega arith) lt))
  | inr long ↦
      let le : 21 ≤ length (b ∷ bs) = ground arith in
      rw (torn_error_long (length (b ∷ bs)) le) (read_record-Torn r (b ∷ bs) h torn le)
]

pub torn_error-ne : (n : ℕ) → torn_error n ≢ some write_failed
unfolding torn_error
torn_error-ne n = λ e. ground arith
