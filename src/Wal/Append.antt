-- ===== src/Wal/Append.antt =====
-- Writing to the log and reading it back: `WriteRecord` and `ReadAll` together.
use my_sqlight.Prelude.{
  ℕ, ◌+◌, ◌-◌, ◌%◌, ◌^◌, ◌<◌, ◌≡◌, refl, sym, ap, ◌∙◌, arith, none, some, List, [], ◌∷◌, ◌++◌, map,
  append-nil, append_assoc, length, length-append, take, drop, take-append-drop, length-drop,
  length-take, min,
}
use my_sqlight.Bytes.{Bytes}
use my_sqlight.Catalog.Stored.{All}
use my_sqlight.Files.{write_at, write_at_end}
use my_sqlight.Wal.Record.{RecordType, Record, encode_record, stop, read_record}
use my_sqlight.Wal.Log.{
  written, ReadOutcome, Wal, scan, read_all, WriteOutcome, complete, broken, write_record,
}
use my_sqlight.Wal.RoundTrip.{HasImages, FitsRecord, logged}
use my_sqlight.Wal.Scan.{encodes, bump_all, scan-encodes}
use my_sqlight.Wal.Short.{Torn, torn_error}
use my_sqlight.Wal.Torn.{read_record_nil, read_all-Torn, read_loop-stop}

-- Several writes, one after the other, each complete.
unfoldable pub write_records : Wal → List Record → Wal
write_records w [] = w
write_records w (r ∷ rs) = write_records (write_record w r complete).2 rs

-- The records with the numbers that the log gives them, from `n` on.
unfoldable pub number : ℕ → List Record → List Record
number n [] = []
number n (r ∷ rs) = record r { lsn = n } ∷ number ((n + 1) % 2 ^ 64) rs

-- What the caller sees to: the log sets the sequence number and the checksum itself.
pub record FitsContent (r : Record) : Type 0 where
  pub txn_fits : r.txn_id < 2 ^ 64
  pub page_fits : r.page_id < 2 ^ 32
  pub has_images : HasImages r.record_type r

HasImages-lsn :
    (t : RecordType) (r : Record) (n : ℕ) → HasImages t r → HasImages t (record r { lsn = n })
HasImages-lsn RecordType.record_begin r n h = tt
HasImages-lsn RecordType.record_commit r n h = tt
HasImages-lsn RecordType.record_abort r n h = tt
HasImages-lsn RecordType.record_update r n h = h

number-FitsRecord :
    (n : ℕ) (rs : List Record) → n < 2 ^ 64 → All FitsContent rs → All FitsRecord (number n rs)
unfolding number
number-FitsRecord n [] h hs = tt
number-FitsRecord n (r ∷ rs) h (hr, hrs) = (
  record {
    lsn_fits = h;
    txn_fits = hr.txn_fits;
    page_fits = hr.page_fits;
    has_images = HasImages-lsn r.record_type r n hr.has_images;
  },
  number-FitsRecord ((n + 1) % 2 ^ 64) rs (omega arith) hrs,
)

-- A log is at its end when what is written next goes behind all that is there.
abbrev pub AtEnd : Wal → Type 0
AtEnd w = w.offset ≡ length w.contents

-- The record with the number that it gets.
abbrev pub next_record : Wal → Record → Record
next_record w r = record r { lsn = w.next_lsn }

write_record_end :
    (w : Wal) (r : Record) (outcome : WriteOutcome)
    → AtEnd w
    → ((write_record w r outcome).2.contents
        ≡ w.contents ++ written outcome (encode_record (next_record w r)).0)
      × AtEnd (write_record w r outcome).2
unfolding write_record
write_record_end w r outcome h = (
  appended,
  rw (appended, h)
      (sym (length-append w.contents (written outcome (encode_record (next_record w r)).0))),
)
  where
    appended :
        write_at w.contents w.offset (written outcome (encode_record (next_record w r)).0)
        ≡ w.contents ++ written outcome (encode_record (next_record w r)).0
    appended = write_at_end w.contents _ w.offset h

write_record-next_lsn :
    (w : Wal) (r : Record) (outcome : WriteOutcome)
    → (write_record w r outcome).2.next_lsn ≡ (w.next_lsn + 1) % 2 ^ 64
unfolding write_record
write_record-next_lsn w r outcome = refl

write_records_contents :
    (rs : List Record) (w : Wal)
    → AtEnd w
    → ((write_records w rs).contents ≡ w.contents ++ encodes (number w.next_lsn rs))
      × AtEnd (write_records w rs)
unfolding write_records number encodes
write_records_contents [] w h = (sym (append-nil w.contents), h)
write_records_contents (r ∷ rs) w h =
    let (one, end) = write_record_end w r complete h in
    let (more, end') = write_records_contents rs (write_record w r complete).2 end in
    (
      more
          ∙ rw (
            one,
            write_record-next_lsn w r complete,
            append_assoc w.contents (encode_record (next_record w r)).0,
          ),
      end',
    )

encodes-append : (xs ys : List Record) → encodes (xs ++ ys) ≡ encodes xs ++ encodes ys
unfolding encodes
encodes-append [] ys = refl
encodes-append (x ∷ xs) ys =
    rw (encodes-append xs ys, append_assoc (encode_record x).0 (encodes xs) (encodes ys))

All-append :
    (xs ys : List Record) → All FitsRecord xs → All FitsRecord ys → All FitsRecord (xs ++ ys)
All-append [] ys h k = k
All-append (x ∷ xs) ys h k = (h.0, All-append xs ys h.1 k)

pub read_all-encodes :
    (rs : List Record) (w : Wal)
    → All FitsRecord rs
    → w.contents ≡ encodes rs
    → read_all w
      ≡ some (
        record {
          records = map logged rs;
          error = none;
          next_lsn = bump_all rs w.next_lsn;
          unread = [];
        },
        record w { offset = length w.contents; next_lsn = bump_all rs w.next_lsn },
      )
unfolding read_all
read_all-encodes rs w hs e =
    let (fuel, scanned) = scan-encodes rs w.next_lsn [] hs in
    rw
      (
        ap (scan w.next_lsn) (e ∙ sym (append-nil (encodes rs)))
            ∙ scanned
            ∙ read_loop-stop fuel (bump_all rs w.next_lsn) (map logged rs) [] [] end_of_log,
        read_all,
      )
      (rw nothing_left)
  where
    end_of_log : read_record [] ≡ stop []
    end_of_log = read_record_nil

    nothing_left : length w.contents - 0 ≡ length w.contents
    nothing_left = omega arith

-- `ReadAll` returns every record ever written: what a log held before, then the records written to
-- its end in the order of the writes, with the consecutive numbers that the log gave them and the
-- checksums that it computed, and no error.
pub read_all-write_records :
    (old rs : List Record) (w : Wal)
    → All FitsRecord old
    → All FitsContent rs
    → w.next_lsn < 2 ^ 64
    → w.contents ≡ encodes old
    → AtEnd w
    → (out : ReadOutcome) × (w' : Wal) × (read_all (write_records w rs) ≡ some (out, w'))
      × (out.records ≡ map logged (old ++ number w.next_lsn rs))
      × (out.error ≡ none)
read_all-write_records old rs w hold hrs hn e end = (
  _,
  _,
  read_all-encodes (old ++ number w.next_lsn rs) (write_records w rs)
      (All-append old (number w.next_lsn rs) hold (number-FitsRecord w.next_lsn rs hn hrs))
      ((write_records_contents rs w end).0 ∙ rw (e, encodes-append old (number w.next_lsn rs))),
  refl,
  refl,
)

-- A crash inside a write to the end of a sound log loses the record that was being written and no
-- other: `ReadAll` returns all the records before it. Where the crash left part of the header and
-- not all of it, `ReadAll` reports an error besides.
pub read_all-write_record_broken :
    (old : List Record) (r : Record) (n : ℕ) (w : Wal)
    → All FitsRecord old
    → FitsContent r
    → w.next_lsn < 2 ^ 64
    → w.contents ≡ encodes old
    → AtEnd w
    → n < length (encode_record (record r { lsn = w.next_lsn })).0
    → (out : ReadOutcome) × (w' : Wal) × (read_all (write_record w r (broken n)).2 ≡ some (out, w'))
      × (out.records ≡ map logged old)
      × (out.error ≡ torn_error n)
read_all-write_record_broken old r n w hold hr hn e end cut = (
  _,
  _,
  read_all-Torn old (next_record w r) front (write_record w r (broken n)).2 hold fits torn
      ((write_record_end w r (broken n) end).0 ∙ rw e),
  refl,
  rw (length-take n (encode_record (next_record w r)).0, short),
)
  where
    front : Bytes
    front = take n (encode_record (next_record w r)).0

    short : min n (length (encode_record (next_record w r)).0) ≡ n
    short = omega arith

    fits : FitsRecord (next_record w r)
    fits = record {
      lsn_fits = hn;
      txn_fits = hr.txn_fits;
      page_fits = hr.page_fits;
      has_images = HasImages-lsn r.record_type r w.next_lsn hr.has_images;
    }

    torn : Torn (next_record w r) front
    torn = record {
      lost = drop n (encode_record (next_record w r)).0;
      split = sym (take-append-drop n (encode_record (next_record w r)).0);
      some_lost = omega (arith, length-drop n (encode_record (next_record w r)).0);
    }
