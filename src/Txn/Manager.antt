-- ===== src/Txn/Manager.antt =====
-- The transaction manager of txn/txn.go. A `*Txn` is an address in the memory `txns`, which the map
-- `active` and the callers share: Commit and Rollback change the transaction that all of them see.
-- The log of the manager and that of the pool are one file, which db.go opens: a write is seen by both.
pub mod Invariant
pub mod Ends
use my_sqlight.Prelude.{
  ◌==◌, ℕ, suc, ◌+◌, ◌%◌, ◌^◌, Bool, true, false, if◌then◌else◌, List, [], Option, some, none,
  Result, ok, err, panic,
}
use my_sqlight.Maps.{Map, nat_eq, find, put, delete}
use my_sqlight.Wal.Log.{Wal, WalError, WriteOutcome, write_record}
use my_sqlight.Wal.Record.{Record, RecordType, record_begin, record_commit, record_abort}
use my_sqlight.Storage.Pool.{BufferPool, PoolError}
use my_sqlight.Storage.Pool.Rollback.{rollback_txn, set_wal}
use my_sqlight.Txn.Locks.{LockManager, new_lock_manager, release_all}

pub data TxnState : Type 0 where
  txn_active txn_committed txn_aborted : TxnState

pub record Txn : Type 0 where
  pub id : ℕ
  pub state : TxnState

-- The last two fields are the memory of the transactions and its first free address.
pub record TxnManager : Type 0 where
  pub next_id : ℕ
  pub active : Map ℕ ℕ
  pub lock_mgr : LockManager
  pub wal : Wal
  pub pool : BufferPool
  pub txns : ℕ → Txn
  pub next_ptr : ℕ

-- `*p = txn`
unfoldable pub store : ℕ → Txn → (ℕ → Txn) → ℕ → Txn
store p txn txns q = if q == p then txn else txns q

pub data TxnError : Type 0 where
  not_active : TxnError
  log_failed : WalError → TxnError
  pool_failed : PoolError → TxnError

unfoldable pub new_txn_manager : Wal → BufferPool → (ℕ → Txn) → TxnManager
new_txn_manager w pool txns = record {
  next_id = 1;
  active = [];
  lock_mgr = new_lock_manager;
  wal = w;
  pool = pool;
  txns = txns;
  next_ptr = 0;
}

-- The record that holds its type and the transaction only.
unfoldable pub txn_record : RecordType → ℕ → Record
txn_record record_type txn = record {
  lsn = 0;
  txn_id = txn;
  record_type = record_type;
  page_id = 0;
  before_image = [];
  after_image = [];
  checksum = 0;
}

-- `m.wal.WriteRecord`, with what the operating system makes of the write.
unfoldable pub log_txn : RecordType → ℕ → WriteOutcome → TxnManager → Option WalError × TxnManager
log_txn record_type txn outcome m =
    let (r, e, w) = write_record m.wal (txn_record record_type txn) outcome in
    (e, record m { wal = w; pool = set_wal w m.pool })

-- `&Txn{ID: m.nextID, State: TxnActive}`, at the first free address.
unfoldable pub new_txn : TxnManager → ℕ × TxnManager
new_txn m = (
  m.next_ptr,
  record m {
    txns = store m.next_ptr (record { id = m.next_id; state = txn_active }) m.txns;
    next_ptr = m.next_ptr + 1;
  },
)

unfoldable pub begin : WriteOutcome → TxnManager → Result TxnError ℕ × TxnManager
begin outcome m =
    let (txn, made) = new_txn m in
    let (e, logged) = log_txn record_begin m.next_id outcome made in
    elim e [
      | some f ↦ (err (log_failed f), logged)
      | none ↦ (
        ok txn,
        record logged { active = put m.next_id txn m.active; next_id = (m.next_id + 1) % 2 ^ 64 },
      )
    ]

abbrev pub is_active : TxnState → Bool
is_active txn_active = true
is_active s = false

-- The end of both Commit and Rollback: the locks go, the state changes, and the transaction leaves
-- the active ones.
unfoldable pub finish : TxnState → ℕ → TxnManager → Option TxnError × TxnManager
finish state txn m = (
  none,
  record m {
    lock_mgr = release_all (m.txns txn).id m.lock_mgr;
    txns = store txn (record { id = (m.txns txn).id; state = state }) m.txns;
    active = delete (m.txns txn).id m.active;
  },
)

-- The record of the end is written first.
unfoldable pub log_end :
    RecordType → TxnState → WriteOutcome → ℕ → TxnManager → Option TxnError × TxnManager
log_end record_type state outcome txn m =
    let (e, logged) = log_txn record_type (m.txns txn).id outcome m in
    elim e [ some f ↦ (some (log_failed f), logged) | none ↦ finish state txn logged ]

unfoldable pub commit : WriteOutcome → ℕ → TxnManager → Option TxnError × TxnManager
commit outcome txn m =
    if is_active (m.txns txn).state
    then log_end record_commit txn_committed outcome txn m
    else (some not_active, m)

unfoldable pub undo_pages : ℕ → TxnManager → Option PoolError × TxnManager
undo_pages id m = let (e, pool') = rollback_txn id m.pool in (e, record m { pool = pool' })

unfoldable pub rollback : WriteOutcome → ℕ → TxnManager → Option TxnError × TxnManager
rollback outcome txn m =
    if is_active (m.txns txn).state
    then (let (e, undone) = undo_pages (m.txns txn).id m in
        elim e [
          | some f ↦ (some (pool_failed f), undone)
          | none ↦ log_end record_abort txn_aborted outcome txn undone
        ])
    else (some not_active, m)
