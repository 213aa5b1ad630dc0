-- ===== src/Tests/Log.antt =====
-- Tests of the log (wal/wal.go).
use my_sqlight.Wal.Torn.{open_wal-Torn, read_all_corrupt, read_all-Torn}
use my_sqlight.Wal.Crc.{crc_shift, crc_shifts, crc_bytes, crc32}
use my_sqlight.Wal.Scan.{bump_all, scan-ne-none, encodes}
use my_sqlight.Wal.Append.{
  read_all-write_records, number, read_all-write_record_broken, write_records, FitsContent,
}
use my_sqlight.Wal.Short.{torn_error, Torn}
use my_sqlight.Bytes.{put_be, Bytes}
use my_sqlight.Wal.RoundTrip.{logged, FitsRecord}
use my_sqlight.Wal.Log.{
  lsn_after, opened, refused, broken, write_record, ReadOutcome, scan, read_all, open_wal, Wal,
}
use my_sqlight.Prelude.{
  refl, ◌-◌, length-drop, take-append-drop, sym, map, none, ◌≢◌, drop, ◌++◌, some, take, arith, [],
  ◌≡◌, ◌∷◌, length,
}
use my_sqlight.Wal.Record.{
  type_code, is_update, record_header, record_body, record_commit, record_begin, encode_record,
  Record,
}

abbrev begin_7 : Record
begin_7 = record {
  lsn = 0;
  txn_id = 7;
  record_type = record_begin;
  page_id = 0;
  before_image = [];
  after_image = [];
  checksum = 0;
}

abbrev commit_7 : Record
commit_7 = record begin_7 { lsn = 1; record_type = record_commit }

begin_7-FitsRecord : FitsRecord begin_7
begin_7-FitsRecord = record {
  lsn_fits = omega arith;
  txn_fits = omega arith;
  page_fits = omega arith;
  has_images = tt;
}

commit_7-FitsRecord : FitsRecord commit_7
commit_7-FitsRecord = record {
  lsn_fits = omega arith;
  txn_fits = omega arith;
  page_fits = omega arith;
  has_images = tt;
}

commit_7-FitsContent : FitsContent commit_7
commit_7-FitsContent = record { txn_fits = omega arith; page_fits = omega arith; has_images = tt }

abbrev log_of : Bytes → Wal
log_of file = record { contents = file; offset = length file; next_lsn = 1 }

length-encode_record_7 : length (encode_record commit_7).0 ≡ 25
unfolding encode_record record_body record_header put_be is_update type_code
length-encode_record_7 = refl

-- The crash left five bytes of the header.
commit_7-Torn : Torn commit_7 (take 5 (encode_record commit_7).0)
commit_7-Torn = record {
  lost = drop 5 (encode_record commit_7).0;
  split = sym (take-append-drop 5 (encode_record commit_7).0);
  some_lost = omega (arith, length-drop 5 (encode_record commit_7).0, length-encode_record_7);
}

scan-ne-none_example : scan 0 (1 ∷ 2 ∷ 3 ∷ []) ≢ none
scan-ne-none_example = scan-ne-none 0 (1 ∷ 2 ∷ 3 ∷ [])

abbrev torn_log : Wal
torn_log = log_of (encodes (begin_7 ∷ []) ++ take 5 (encode_record commit_7).0)

read_all-Torn_example :
    read_all torn_log
    ≡ some (
      record {
        records = map logged (begin_7 ∷ []);
        error = torn_error (length (take 5 (encode_record commit_7).0));
        next_lsn = bump_all (begin_7 ∷ []) 1;
        unread = [];
      },
      record torn_log { offset = length torn_log.contents; next_lsn = bump_all (begin_7 ∷ []) 1 },
    )
read_all-Torn_example =
    read_all-Torn (begin_7 ∷ []) commit_7 (take 5 (encode_record commit_7).0) torn_log
      (begin_7-FitsRecord, tt) commit_7-FitsRecord commit_7-Torn refl

open_wal-Torn_example :
    open_wal (encodes (begin_7 ∷ []) ++ take 5 (encode_record commit_7).0)
    ≡ elim (torn_error (length (take 5 (encode_record commit_7).0))) [
      | some e ↦ refused e
      | none ↦ opened (record {
        contents = encodes (begin_7 ∷ []) ++ take 5 (encode_record commit_7).0;
        offset = length (encodes (begin_7 ∷ []) ++ take 5 (encode_record commit_7).0);
        next_lsn = lsn_after (map logged (begin_7 ∷ [])) (bump_all (begin_7 ∷ []) 0);
      })
    ]
open_wal-Torn_example =
    open_wal-Torn (begin_7 ∷ []) commit_7 (take 5 (encode_record commit_7).0)
      (begin_7-FitsRecord, tt) commit_7-FitsRecord commit_7-Torn

read_all-write_records_example :
    (out : ReadOutcome) × (w' : Wal) × (read_all
        (write_records (log_of (encodes (begin_7 ∷ []))) (commit_7 ∷ []))
      ≡ some (out, w'))
    × (out.records ≡ map logged ((begin_7 ∷ []) ++ number 1 (commit_7 ∷ [])))
    × (out.error ≡ none)
read_all-write_records_example =
    read_all-write_records (begin_7 ∷ []) (commit_7 ∷ []) (log_of (encodes (begin_7 ∷ [])))
      (begin_7-FitsRecord, tt) (commit_7-FitsContent, tt) (omega arith) refl refl

read_all-write_record_broken_example :
    (out : ReadOutcome) × (w' : Wal) × (read_all
        (write_record (log_of (encodes (begin_7 ∷ []))) commit_7 (broken 5)).2
      ≡ some (out, w'))
    × (out.records ≡ map logged (begin_7 ∷ []))
    × (out.error ≡ torn_error 5)
read_all-write_record_broken_example =
    read_all-write_record_broken (begin_7 ∷ []) commit_7 5 (log_of (encodes (begin_7 ∷ [])))
      (begin_7-FitsRecord, tt) commit_7-FitsContent (omega arith) refl refl
      (omega (arith, length-encode_record_7))

abbrev corrupt_log : Wal
corrupt_log = log_of (encodes (begin_7 ∷ []) ++ (record_body commit_7 ++ (put_be 4 0 ++ (1 ∷ []))))

bad_sum : 0 ≢ crc32 (record_body commit_7)
unfolding record_body record_header put_be is_update type_code crc32 crc_bytes crc_shifts crc_shift
bad_sum = λ e. omega arith

read_all_corrupt_example :
    read_all corrupt_log
    ≡ some (
      record {
        records = map logged (begin_7 ∷ []);
        error = none;
        next_lsn = bump_all (begin_7 ∷ []) 1;
        unread = 1 ∷ [];
      },
      record corrupt_log {
        offset = length corrupt_log.contents - 1;
        next_lsn = bump_all (begin_7 ∷ []) 1;
      },
    )
read_all_corrupt_example =
    read_all_corrupt (begin_7 ∷ []) commit_7 0 (1 ∷ []) corrupt_log (begin_7-FitsRecord, tt)
      commit_7-FitsRecord (omega arith) bad_sum refl
