-- ===== src/Wal/Recovery.antt =====
-- Crash recovery: `Recover`, `analysisPass` and `undoPass` of wal/recovery.go.
pub mod Sets
pub mod Active
pub mod Pages
pub mod Reads
pub mod Undone
pub mod Outcome
use my_sqlight.Prelude.{
  ℕ, ◌==◌, Bool, true, false, ◌&&◌, Option, none, some, List, [], ◌∷◌, ◌++◌, reverse, if◌then◌else◌,
}
use my_sqlight.Bytes.{Bytes}
use my_sqlight.Wal.Record.{
  RecordType, record_begin, record_commit, record_abort, record_update, Record, is_update,
}
use my_sqlight.Wal.Log.{
  WalError, Wal, read_all, Opened, opened, refused, stuck, open_wal, complete, write_record,
  checkpoint,
}
use my_sqlight.Wal.Recovery.Sets.{put, delete, holds}

-- The interface `PageWriter`: a store of pages, and `WritePage`, which returns the error if any.
pub record PageWriter : Type 1 where
  pub State : Type 0
  pub Failure : Type 0
  pub write_page : State → ℕ → Bytes → State × Option Failure

-- The outcome of `Recover`: the pages, the log file, and the error if any.
pub data RecoverError (Failure : Type 0) : Type 0 where
  log_error : WalError → RecoverError Failure
  page_error : Failure → RecoverError Failure

pub record RecoverOutcome (State Failure : Type 0) : Type 0 where
  pub state : State
  pub log : Bytes
  pub error : Option (RecoverError Failure)

-- `Record{TxnID: id, Type: RecordAbort}`
abbrev pub abort_of : ℕ → Record
abort_of id = record {
  lsn = 0;
  txn_id = id;
  record_type = record_abort;
  page_id = 0;
  before_image = [];
  after_image = [];
  checksum = 0;
}

-- The loop at the end of `undoPass`. That a write to the log fails is not modelled here.
unfoldable pub write_aborts : List ℕ → Wal → Wal
write_aborts [] w = w
write_aborts (id ∷ ids) w = write_aborts ids (write_record w (abort_of id) complete).2

module _ (writer : PageWriter) where
  open writer use {State, Failure, write_page}

  unfoldable pub analysis_step :
      RecordType → Record → List ℕ → State → List ℕ × Option Failure × State
  analysis_step record_abort r active s = (delete r.txn_id active, none, s)
  analysis_step record_begin r active s = (put r.txn_id active, none, s)
  analysis_step record_commit r active s = (delete r.txn_id active, none, s)
  analysis_step record_update r active s =
      let (s', e) = write_page s r.page_id r.after_image in (active, e, s')

  -- The scan of the log: the active transactions, with the after-images written on the way. An
  -- error of the writer ends it.
  unfoldable pub analysis_pass : List Record → List ℕ → State → List ℕ × Option Failure × State
  analysis_pass [] active s = (active, none, s)
  analysis_pass (r ∷ rs) active s =
      let (active', e, s') = analysis_step r.record_type r active s in
      elim e [ none ↦ analysis_pass rs active' s' | some f ↦ (active', some f, s') ]

  -- The first loop of `undoPass`, over the records from the last one back.
  unfoldable pub undo_pages : List Record → List ℕ → State → Option Failure × State
  undo_pages [] active s = (none, s)
  undo_pages (r ∷ rs) active s =
      if is_update r.record_type && holds r.txn_id active
      then (let (s', e) = write_page s r.page_id r.before_image in
          elim e [ none ↦ undo_pages rs active s' | some f ↦ (some f, s') ])
      else undo_pages rs active s

  unfoldable pub undo_pass : List Record → List ℕ → State → Wal → Option Failure × State × Wal
  undo_pass rs active s w =
      let (e, s') = undo_pages (reverse rs) active s in
      elim e [ none ↦ (none, s', write_aborts active w) | some f ↦ (some f, s', w) ]

  -- The two passes and the checkpoint. The error of `undoPass` is dropped, as in the source.
  unfoldable pub recover_records : List Record → State → Wal → RecoverOutcome State Failure
  recover_records rs s w =
      let (active, e, s') = analysis_pass rs [] s in
      elim e [
        | some f ↦ record { state = s'; log = w.contents; error = some (page_error f) }
        | none ↦
            let (_, s'', w') = undo_pass rs active s' w in
            record { state = s''; log = (checkpoint w').contents; error = none }
      ]

  unfoldable pub recover_opened : Wal → State → Option (RecoverOutcome State Failure)
  recover_opened w s = elim (read_all w) [
    | none ↦ none
    | some (out, w') ↦ elim out.error [
      | some e ↦ some (record { state = s; log = w'.contents; error = some (log_error e) })
      | none ↦ some (recover_records out.records s w')
    ]
  ]

  -- `Recover` on a log file with these contents; `none` only where the scan runs out of fuel, which
  -- it never does.
  unfoldable pub recover : Bytes → State → Option (RecoverOutcome State Failure)
  recover file s = elim (open_wal file) [
    | stuck ↦ none
    | refused e ↦ some (record { state = s; log = file; error = some (log_error e) })
    | opened w ↦ recover_opened w s
  ]
