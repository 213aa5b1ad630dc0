-- ===== src/Wal/Scan.antt =====
-- The loop of `ReadAll` over whole logs: it ends on every file, and it passes through written
-- records to whatever stands behind them.
use my_sqlight.Prelude.{
  inr, inl, ◌⊎◌, ℕ, zero, suc, ◌+◌, ◌-◌, ◌≤◌, ◌<◌, ◌≡◌, ◌≢◌, refl, ◌∙◌, arith, Option, none, some,
  List, [], ◌∷◌, ◌++◌, map, append-nil, append_assoc, length, length-append, length-drop, get_or,
  take, drop,
}
use my_sqlight.Bytes.{put_be, Bytes}
use my_sqlight.Catalog.Stored.{All}
use my_sqlight.Files.{read_full-cases, read_full}
use my_sqlight.Wal.Record.{
  record_body, page_size, RecordType, record_begin, record_commit, record_abort, record_update,
  Record, type_of_code, encode_record, Round, stop, fail, next, read_checksum, header_record,
  read_after, read_before, read_typed, read_record,
}
use my_sqlight.Wal.Crc.{crc32}
use my_sqlight.Bytes.Laws.{length-put_be}
use my_sqlight.Bytes.{put_be}
use my_sqlight.Wal.Record.{record_body}
use my_sqlight.Wal.Log.{bump_lsn, read_loop, scan}
use my_sqlight.Wal.RoundTrip.{FitsRecord, logged, read_record-encode_record}

Round-cases :
    (x : Round)
    → ((rest : Bytes) × (x ≡ stop rest))
      ⊎ (((rest : Bytes) × (x ≡ fail rest)) ⊎ ((r : Record) × (rest : Bytes) × (x ≡ next r rest)))
Round-cases (stop rest) = inl (rest, refl)
Round-cases (fail rest) = inr (inl (rest, refl))
Round-cases (next r rest) = inr (inr (r, rest, refl))

-- The bytes of the records, one after the other.
unfoldable pub encodes : List Record → Bytes
encodes [] = []
encodes (r ∷ rs) = (encode_record r).0 ++ encodes rs

-- The sequence number that the log goes on with after reading the records.
unfoldable pub bump_all : List Record → ℕ → ℕ
bump_all [] lsn = lsn
bump_all (r ∷ rs) lsn = bump_all rs (bump_lsn r.lsn lsn)

read_checksum-shrinks :
    (buffer : Bytes) (found : ℕ → Record) (bs : Bytes) (r : Record) (rest : Bytes)
    → read_checksum buffer found bs ≡ next r rest
    → length rest ≤ length bs
unfolding read_checksum read_full
read_checksum-shrinks buffer found bs r rest h = ground (arith, length-drop 4 bs)

read_after-shrinks :
    (buffer before bs : Bytes) (r : Record) (rest : Bytes)
    → read_after buffer before bs ≡ next r rest
    → length rest ≤ length bs
unfolding read_after
read_after-shrinks buffer before bs r rest h = elim (read_full-cases page_size bs) [
  | inl e ↦ cc (rw (e, read_after) at h)
  | inr (inl e) ↦ cc (rw (e, read_after) at h)
  | inr (inr (front, left, e, _, shorter)) ↦ omega (
    arith,
    read_checksum-shrinks (buffer ++ (before ++ front))
        (header_record record_update buffer before front) left r rest (rw (e, read_after) at h),
  )
]

read_before-shrinks :
    (buffer bs : Bytes) (r : Record) (rest : Bytes)
    → read_before buffer bs ≡ next r rest
    → length rest ≤ length bs
unfolding read_before
read_before-shrinks buffer bs r rest h = elim (read_full-cases page_size bs) [
  | inl e ↦ cc (rw (e, read_before) at h)
  | inr (inl e) ↦ cc (rw (e, read_before) at h)
  | inr (inr (front, left, e, _, shorter)) ↦
      omega (arith, read_after-shrinks buffer front left r rest (rw (e, read_before) at h))
]

read_typed-shrinks :
    (t : Option RecordType) (buffer bs : Bytes) (r : Record) (rest : Bytes)
    → read_typed t buffer bs ≡ next r rest
    → length rest ≤ length bs
unfolding read_typed
read_typed-shrinks none buffer bs r rest h = cc
read_typed-shrinks (some record_begin) buffer bs r rest h =
    read_checksum-shrinks buffer _ bs r rest h
read_typed-shrinks (some record_commit) buffer bs r rest h =
    read_checksum-shrinks buffer _ bs r rest h
read_typed-shrinks (some record_abort) buffer bs r rest h =
    read_checksum-shrinks buffer _ bs r rest h
read_typed-shrinks (some record_update) buffer bs r rest h = read_before-shrinks buffer bs r rest h

-- A round that goes on has taken a header at least.
read_record-shrinks :
    (bs : Bytes) (r : Record) (rest : Bytes)
    → read_record bs ≡ next r rest
    → length rest < length bs
unfolding read_record read_full
read_record-shrinks bs r rest h = ground (
  arith,
  length-drop 21 bs,
  read_typed-shrinks (type_of_code (get_or (take 21 bs) 16 0)) (take 21 bs) (drop 21 bs) r rest,
)

read_loop_next :
    (fuel : ℕ) (records : List Record) (lsn : ℕ) (bs rest : Bytes) (r : Record)
    → read_record bs ≡ next r rest
    → read_loop (suc fuel) records lsn bs
      ≡ read_loop fuel (records ++ (r ∷ [])) (bump_lsn r.lsn lsn) rest
unfolding read_loop
read_loop_next fuel records lsn bs rest r e = rw (e, read_loop)

read_loop_total :
    (fuel : ℕ) (records : List Record) (lsn : ℕ) (bs : Bytes)
    → length bs < fuel
    → read_loop fuel records lsn bs ≢ none
unfolding read_loop
read_loop_total zero records lsn bs h = absurd (omega arith)
read_loop_total (suc fuel) records lsn bs h = elim (Round-cases (read_record bs)) [
  | inl (rest, e) ↦ rw (e, read_loop) (λ q. cc)
  | inr (inl (rest, e)) ↦ rw (e, read_loop) (λ q. cc)
  | inr (inr (r, rest, e)) ↦
      rw (e, read_loop)
        (read_loop_total fuel (records ++ (r ∷ [])) (bump_lsn r.lsn lsn) rest
          (omega (arith, read_record-shrinks bs r rest e)))
]

-- The scan of the log ends on every file, whatever its bytes: the fuel is never used up.
pub scan-ne-none : (lsn : ℕ) (bs : Bytes) → scan lsn bs ≢ none
unfolding scan
scan-ne-none lsn bs = read_loop_total (suc (length bs)) [] lsn bs (omega arith)

-- One round of the loop for each written record.
read_loop-encodes :
    (rs records : List Record) (fuel lsn : ℕ) (tail : Bytes)
    → All FitsRecord rs
    → read_loop (length rs + fuel) records lsn (encodes rs ++ tail)
      ≡ read_loop fuel (records ++ map logged rs) (bump_all rs lsn) tail
unfolding encodes bump_all logged
read_loop-encodes [] records fuel lsn tail h = rw append-nil (rw zero_add)
  where
    zero_add : 0 + fuel ≡ fuel
    zero_add = omega arith
read_loop-encodes (r ∷ rs) records fuel lsn tail (hr, hrs) =
    rw (suc_add, append_assoc (encode_record r).0 (encodes rs) tail)
      (one_round
        ∙ read_loop-encodes rs (records ++ (r' ∷ [])) fuel (bump_lsn r.lsn lsn) tail hrs
        ∙ rw (append_assoc records (r' ∷ []) (map logged rs)))
  where
    r' : Record
    r' = logged r

    suc_add : suc (length rs) + fuel ≡ suc (length rs + fuel)
    suc_add = omega arith

    one_round :
        read_loop (suc (length rs + fuel)) records lsn ((encode_record r).0 ++ (encodes rs ++ tail))
        ≡ read_loop
            (length rs + fuel)
            (records ++ (r' ∷ []))
            (bump_lsn r.lsn lsn)
            (encodes rs ++ tail)
    one_round = read_loop_next _ records lsn _ _ r' (read_record-encode_record r _ hr)

encode_record_nonempty : (r : Record) → 0 < length (encode_record r).0
unfolding encode_record
encode_record_nonempty r = omega (
  arith,
  length-append (record_body r) (put_be 4 (crc32 (record_body r))),
  length-put_be 4 (crc32 (record_body r)),
)

length-encodes : (rs : List Record) → length rs ≤ length (encodes rs)
unfolding encodes
length-encodes [] = omega arith
length-encodes (r ∷ rs) = omega (
  arith,
  length-append (encode_record r).0 (encodes rs),
  encode_record_nonempty r,
  length-encodes rs,
)

-- The scan of written records and a tail: the loop goes on with the tail, with fuel to spare.
pub scan-encodes :
    (rs : List Record) (lsn : ℕ) (tail : Bytes)
    → All FitsRecord rs
    → (fuel : ℕ) × (scan lsn (encodes rs ++ tail)
        ≡ read_loop (suc fuel) (map logged rs) (bump_all rs lsn) tail)
unfolding scan
scan-encodes rs lsn tail h = (spare, rw budget (read_loop-encodes rs [] (suc spare) lsn tail h))
  where
    spare : ℕ
    spare = length (encodes rs ++ tail) - length rs

    budget : suc (length (encodes rs ++ tail)) ≡ length rs + suc spare
    budget = omega (arith, length-append (encodes rs) tail, length-encodes rs)
