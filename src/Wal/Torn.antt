-- ===== src/Wal/Torn.antt =====
-- A log whose last write was cut short by a crash, and a log with a damaged record.
use my_sqlight.Files.{read_full-nil}
use my_sqlight.Prelude.{
  ℕ, suc, ◌-◌, ◌^◌, ◌<◌, ◌≡◌, ◌≢◌, refl, ap, ◌∙◌, arith, false, Option, none, some, List, [], ◌++◌,
  map, length, ◌==◌,
}
use my_sqlight.Bytes.{Bytes, put_be}
use my_sqlight.Catalog.Stored.{All}
use my_sqlight.Wal.Crc.{crc32}
use my_sqlight.Wal.Record.{Record, record_body, stop, read_record}
use my_sqlight.Wal.Log.{
  write_failed, lsn_after, WalError, unexpected_end, Wal, read_loop, scan, read_all, opened,
  refused, open_wal,
}
use my_sqlight.Wal.RoundTrip.{FitsRecord, logged, read_record-record_body}
use my_sqlight.Wal.Scan.{encodes, bump_all, scan-encodes}
use my_sqlight.Wal.Short.{Torn, torn_error, torn_round, torn_error-ne, read_record-torn_round}

-- The loop on a round that ends it.
read_loop-torn_round :
    (fuel lsn : ℕ) (records : List Record) (bs : Bytes) (error : Option WalError)
    → read_record bs ≡ torn_round error
    → error ≢ some write_failed
    → read_loop (suc fuel) records lsn bs
      ≡ some (record { records = records; error = error; next_lsn = lsn; unread = [] })
unfolding read_loop
read_loop-torn_round fuel lsn records bs none e h = rw (e, read_loop)
read_loop-torn_round fuel lsn records bs (some unexpected_end) e h = rw (e, read_loop)
read_loop-torn_round fuel lsn records bs (some write_failed) e h = absurd (h refl)

scan-Torn :
    (rs : List Record) (r : Record) (front : Bytes) (lsn : ℕ)
    → All FitsRecord rs
    → FitsRecord r
    → Torn r front
    → scan lsn (encodes rs ++ front)
      ≡ some (record {
        records = map logged rs;
        error = torn_error (length front);
        next_lsn = bump_all rs lsn;
        unread = [];
      })
scan-Torn rs r front lsn hs h torn =
    let (fuel, e) = scan-encodes rs lsn front hs in
    e
    ∙ read_loop-torn_round fuel (bump_all rs lsn) (map logged rs) front (torn_error (length front))
        (read_record-torn_round r front h torn) (torn_error-ne (length front))

-- After a crash inside the write of a record, `ReadAll` returns all the records written before it,
-- as they were logged, and the numbering goes on behind them; it reports an error exactly where
-- the crash left some of the record's 21 header bytes and not all of them. The whole file is read.
pub read_all-Torn :
    (rs : List Record) (r : Record) (front : Bytes) (w : Wal)
    → All FitsRecord rs
    → FitsRecord r
    → Torn r front
    → w.contents ≡ encodes rs ++ front
    → read_all w
      ≡ some (
        record {
          records = map logged rs;
          error = torn_error (length front);
          next_lsn = bump_all rs w.next_lsn;
          unread = [];
        },
        record w { offset = length w.contents; next_lsn = bump_all rs w.next_lsn },
      )
unfolding read_all
read_all-Torn rs r front w hs h torn e =
    rw (ap (scan w.next_lsn) e ∙ scan-Torn rs r front w.next_lsn hs h torn, read_all)
      (rw nothing_left)
  where
    nothing_left : length w.contents - 0 ≡ length w.contents
    nothing_left = omega arith

-- `Open` refuses the log, with the error of a short read, exactly where the crash cut the header of
-- the last record; on any other cut it opens the log, to go on behind the records before the cut
-- and to write at the end of the file, behind the bytes of the torn record.
pub open_wal-Torn :
    (rs : List Record) (r : Record) (front : Bytes)
    → All FitsRecord rs
    → FitsRecord r
    → Torn r front
    → open_wal (encodes rs ++ front) ≡ elim (torn_error (length front)) [
      | some e ↦ refused e
      | none ↦ opened (record {
        contents = encodes rs ++ front;
        offset = length (encodes rs ++ front);
        next_lsn = lsn_after (map logged rs) (bump_all rs 0);
      })
    ]
unfolding open_wal
open_wal-Torn rs r front hs h torn = rw (
  read_all-Torn rs r front (record { contents = encodes rs ++ front; offset = 0; next_lsn = 0 }) hs
      h torn refl,
  open_wal,
)

read_record-corrupt :
    (r : Record) (sum : ℕ) (rest : Bytes)
    → FitsRecord r
    → sum < 2 ^ 32
    → sum ≢ crc32 (record_body r)
    → read_record (record_body r ++ (put_be 4 sum ++ rest)) ≡ stop rest
read_record-corrupt r sum rest h fits bad = read_record-record_body r rest sum h fits ∙ rw differs
  where
    differs : (crc32 (record_body r) == sum) ≡ false
    differs = ground arith

pub read_record_nil : read_record [] ≡ stop []
unfolding read_record
read_record_nil = rw (read_full-nil 21 (omega arith), read_record)

pub read_loop-stop :
    (fuel lsn : ℕ) (records : List Record) (bs rest : Bytes)
    → read_record bs ≡ stop rest
    → read_loop (suc fuel) records lsn bs
      ≡ some (record { records = records; error = none; next_lsn = lsn; unread = rest })
unfolding read_loop
read_loop-stop fuel lsn records bs rest e = rw (e, read_loop)

-- A record whose stored checksum is not that of its bytes ends the log: `ReadAll` returns the
-- records before it and no error, and nothing of what stands behind it.
pub read_all_corrupt :
    (rs : List Record) (r : Record) (sum : ℕ) (rest : Bytes) (w : Wal)
    → All FitsRecord rs
    → FitsRecord r
    → sum < 2 ^ 32
    → sum ≢ crc32 (record_body r)
    → w.contents ≡ encodes rs ++ (record_body r ++ (put_be 4 sum ++ rest))
    → read_all w
      ≡ some (
        record {
          records = map logged rs;
          error = none;
          next_lsn = bump_all rs w.next_lsn;
          unread = rest;
        },
        record w { offset = length w.contents - length rest; next_lsn = bump_all rs w.next_lsn },
      )
unfolding read_all
read_all_corrupt rs r sum rest w hs h fits bad e =
    let (fuel, scanned) = scan-encodes rs w.next_lsn (record_body r ++ (put_be 4 sum ++ rest)) hs in
    rw (
      ap (scan w.next_lsn) e
          ∙ scanned
          ∙ read_loop-stop fuel (bump_all rs w.next_lsn) (map logged rs) _ rest
              (read_record-corrupt r sum rest h fits bad),
      read_all,
    )
