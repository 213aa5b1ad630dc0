-- ===== src/Wal/Log.antt =====
-- The log file: `Open`, `WriteRecord`, `ReadAll` and `Checkpoint` of wal/wal.go.
use my_sqlight.Prelude.{
  ℕ, zero, suc, ◌+◌, ◌-◌, ◌%◌, ◌^◌, Option, none, some, List, [], ◌∷◌, ◌++◌, length, take, ltb,
  if◌then◌else◌,
}
use my_sqlight.Bytes.{Bytes}
use my_sqlight.Files.{write_at}
use my_sqlight.Wal.Record.{Record, stop, fail, next, encode_record, read_record}

-- The file's bytes, its offset, and the next sequence number.
pub record Wal : Type 0 where
  pub contents : Bytes
  pub offset : ℕ
  pub next_lsn : ℕ

pub data WalError : Type 0 where
  unexpected_end write_failed : WalError

-- The records read so far, the error if any, the next sequence number, and what was not read.
pub record ReadOutcome : Type 0 where
  pub records : List Record
  pub error : Option WalError
  pub next_lsn : ℕ
  pub unread : Bytes

-- `if lsn+1 > w.nextLSN { w.nextLSN = lsn + 1 }`
unfoldable pub bump_lsn : ℕ → ℕ → ℕ
bump_lsn lsn old = if ltb old ((lsn + 1) % 2 ^ 64) then (lsn + 1) % 2 ^ 64 else old

-- The loop of `ReadAll`, on fuel; `none` means that the fuel ran out.
unfoldable pub read_loop : ℕ → List Record → ℕ → Bytes → Option ReadOutcome
read_loop zero records lsn bs = none
read_loop (suc fuel) records lsn bs = elim (read_record bs) [
  | stop rest ↦ some (record { records = records; error = none; next_lsn = lsn; unread = rest })
  | fail rest ↦
      some
        (record { records = records; error = some unexpected_end; next_lsn = lsn; unread = rest })
  | next r rest ↦ read_loop fuel (records ++ (r ∷ [])) (bump_lsn r.lsn lsn) rest
]

-- Every round takes a byte at least, so one round for each byte and one more are enough.
unfoldable pub scan : ℕ → Bytes → Option ReadOutcome
scan lsn bs = read_loop (suc (length bs)) [] lsn bs

-- `ReadAll` seeks to the beginning, and leaves the offset where it stopped reading.
unfoldable pub read_all : Wal → Option (ReadOutcome × Wal)
read_all w = elim (scan w.next_lsn w.contents) [
  | none ↦ none
  | some out ↦
      some
        (out, record w { offset = length w.contents - length out.unread; next_lsn = out.next_lsn })
]

-- `records[len(records)-1].LSN + 1`, if there is a record.
unfoldable pub lsn_after : List Record → ℕ → ℕ
lsn_after [] lsn = lsn
lsn_after (r ∷ rs) lsn = lsn_after rs ((r.lsn + 1) % 2 ^ 64)

-- `Open` on a file with these contents: the log, or the error of `ReadAll`.
pub data Opened : Type 0 where
  opened : Wal → Opened
  refused : WalError → Opened
  stuck : Opened

unfoldable pub open_wal : Bytes → Opened
open_wal file = elim (read_all (record { contents = file; offset = 0; next_lsn = 0 })) [
  | none ↦ stuck
  | some (out, w) ↦ elim out.error [
    | some e ↦ refused e
    | none ↦ opened (record w { next_lsn = lsn_after out.records w.next_lsn })
  ]
]

-- How the operating system takes a write: all of it, or an error after so many bytes.
pub data WriteOutcome : Type 0 where
  complete : WriteOutcome
  broken : ℕ → WriteOutcome

abbrev pub written : WriteOutcome → Bytes → Bytes
written complete bs = bs
written (broken n) bs = take n bs

abbrev pub write_error : WriteOutcome → Option WalError
write_error complete = none
write_error (broken n) = some write_failed

-- The caller's record with its number and checksum, the error if any, and the log. The number is
-- used up also where the write fails.
unfoldable pub write_record : Wal → Record → WriteOutcome → Record × Option WalError × Wal
write_record w r outcome =
    let numbered = record r { lsn = w.next_lsn } in
    let (encoded, sum) = encode_record numbered in
    let out = written outcome encoded in
    (
      record numbered { checksum = sum },
      write_error outcome,
      record {
        contents = write_at w.contents w.offset out;
        offset = w.offset + length out;
        next_lsn = (w.next_lsn + 1) % 2 ^ 64;
      },
    )

-- `Checkpoint` truncates the file and seeks to its beginning.
unfoldable pub checkpoint : Wal → Wal
checkpoint w = record w { contents = []; offset = 0 }
