-- ===== src/Txn/Manager/Ends.antt =====
-- How transactions end: what `Commit` and `Rollback` leave behind.
use my_sqlight.Prelude.{◌==◌, ℕ, ◌≡◌, ◌∙◌, arith, refl, ap, if◌then◌else◌, some, none}
use my_sqlight.Bytes.{Bytes}
use my_sqlight.Maps.{nat_eq, find, find-delete}
use my_sqlight.Wal.Log.{complete, write_record}
use my_sqlight.Wal.Record.{RecordType, record_commit, record_abort}
use my_sqlight.Storage.Pool.Rollback.{rollback_txn, set_wal}
use my_sqlight.Txn.Locks.{entry_of}
use my_sqlight.Txn.Locks.ReleaseAll.{WaitsNowhere, release_all_holds_nothing}
use my_sqlight.Txn.Manager.{
  Txn, TxnState, txn_active, txn_committed, txn_aborted, TxnManager, not_active, commit, rollback,
  store, finish, log_end, log_txn, undo_pages, is_active, txn_record,
}

-- The transaction is over: it is not among the active ones, and holds no table's lock.
pub IsOver : ℕ → TxnManager → Type 0
IsOver id m =
    (find id m.active ≡ none)
    × ((table : Bytes) → find id (entry_of table m.lock_mgr).holders ≡ none)

finish-IsOver :
    (state : TxnState) (txn : ℕ) (m : TxnManager)
    → WaitsNowhere (m.txns txn).id m.lock_mgr
    → IsOver (m.txns txn).id (finish state txn m).1
unfolding finish IsOver
finish-IsOver state txn m h = (
  find-delete (m.txns txn).id (m.txns txn).id m.active ∙ own,
  λ table. release_all_holds_nothing (m.txns txn).id table m.lock_mgr h,
)
  where
    own :
        (if (m.txns txn).id == (m.txns txn).id then none else find (m.txns txn).id m.active) ≡ none
    own = ground arith

store_same : (txn : ℕ) (t : Txn) (txns : ℕ → Txn) → store txn t txns txn ≡ t
unfolding store
store_same txn t txns = ground arith

log_end_complete :
    (record_type : RecordType) (state : TxnState) (txn : ℕ) (m : TxnManager)
    → log_end record_type state complete txn m
      ≡ finish state txn (log_txn record_type (m.txns txn).id complete m).1
unfolding log_end log_txn write_record
log_end_complete record_type state txn m = refl

commit_complete :
    (txn : ℕ) (m : TxnManager)
    → (m.txns txn).state ≡ txn_active
    → commit complete txn m
      ≡ finish txn_committed txn (log_txn record_commit (m.txns txn).id complete m).1
unfolding commit
commit_complete txn m active =
    ap
      (λ s.
        if is_active s
        then log_end record_commit txn_committed complete txn m
        else (some not_active, m))
      active
    ∙ log_end_complete record_commit txn_committed txn m

-- Commit of an active transaction that waits for no lock, where the log takes its record, succeeds:
-- the transaction is committed and over, and the log is the one with its commit record written.
pub commit_ends :
    (txn : ℕ) (m : TxnManager)
    → (m.txns txn).state ≡ txn_active
    → WaitsNowhere (m.txns txn).id m.lock_mgr
    → ((commit complete txn m).0 ≡ none)
      × ((commit complete txn m).1.txns txn
          ≡ record { id = (m.txns txn).id; state = txn_committed })
      × (IsOver (m.txns txn).id (commit complete txn m).1)
      × ((commit complete txn m).1.wal
          ≡ (write_record m.wal (txn_record record_commit (m.txns txn).id) complete).2)
unfolding log_txn finish
commit_ends txn m active free = rw (commit_complete txn m active) (
  refl,
  store_same txn (record { id = (m.txns txn).id; state = txn_committed }) m.txns,
  finish-IsOver txn_committed txn (log_txn record_commit (m.txns txn).id complete m).1 free,
  refl,
)

-- Rollback of an active transaction that waits for no lock, where the pages can be restored and the
-- log takes its record, succeeds: the transaction is aborted and over, the pool's pages are those
-- that RollbackTxn leaves, and the log is the one with its abort record written.
pub rollback_ends :
    (txn : ℕ) (m : TxnManager)
    → (m.txns txn).state ≡ txn_active
    → WaitsNowhere (m.txns txn).id m.lock_mgr
    → (rollback_txn (m.txns txn).id m.pool).0 ≡ none
    → ((rollback complete txn m).0 ≡ none)
      × ((rollback complete txn m).1.txns txn
          ≡ record { id = (m.txns txn).id; state = txn_aborted })
      × (IsOver (m.txns txn).id (rollback complete txn m).1)
      × ((rollback complete txn m).1.pool.frames ≡ (rollback_txn (m.txns txn).id m.pool).1.frames)
      × ((rollback complete txn m).1.wal
          ≡ (write_record m.wal (txn_record record_abort (m.txns txn).id) complete).2)
unfolding rollback undo_pages log_txn finish rollback_txn set_wal
rollback_ends txn m active free restored_ =
    rw
      (
        active,
        rollback,
        restored_,
        log_end_complete record_abort txn_aborted txn (undo_pages (m.txns txn).id m).1,
      )
      (
        refl,
        store_same txn (record { id = (m.txns txn).id; state = txn_aborted }) m.txns,
        finish-IsOver txn_aborted txn
            (log_txn record_abort (m.txns txn).id complete (undo_pages (m.txns txn).id m).1).1 free,
        refl,
        refl,
      )
