-- ===== src/Tests/Txns.antt =====
-- Tests of RollbackTxn and of the transaction manager (storage/buffer_pool.go, txn/txn.go).
use my_sqlight.Prelude.{ℕ, ◌^◌, ◌<◌, ◌+◌, ◌≡◌, arith, refl, true, false, [], ◌∷◌, some, none}
use my_sqlight.Maps.{nat_eq, bytes_eq, find}
use my_sqlight.Wal.Log.{Wal, complete, write_record}
use my_sqlight.Wal.Record.{record_commit, record_abort}
use my_sqlight.Storage.Pool.{Page, BufferPool, new_buffer_pool}
use my_sqlight.Storage.Pool.Rollback.{rollback_txn, restore_pages, restore_page, restore_image}
use my_sqlight.Storage.Pool.Restores.{rollback_txn_restores}
use my_sqlight.Txn.Manager.{
  TxnManager, Txn, txn_active, txn_committed, txn_aborted, new_txn_manager, begin, commit, rollback,
  log_txn, new_txn, store, log_end, finish, txn_record,
}
use my_sqlight.Txn.Manager.Invariant.{
  reachable-IsManaged, IsManaged, Calls, no_call, and_call, begins, commits,
}
use my_sqlight.Txn.Manager.Ends.{commit_ends, rollback_ends, IsOver}
use my_sqlight.Txn.Locks.Entry.{lock_exclusive}
use my_sqlight.Txn.Locks.ReleaseAll.{WaitsNowhere}
use my_sqlight.Txn.Locks.{LockManager, entry_of}

-- A page that transaction 4 has changed from 7 to 9.
abbrev page : Page
page = record { id = 1; contents = 9 ∷ []; dirty = true; pin_count = 2 }

abbrev pool : BufferPool
pool =
    record (new_buffer_pool
      (record { pages = []; free_list_head = 0; page_count = 3; catalog_root_page_id = 0 }) 8) {
        frames = (1, page) ∷ [];
        lru_list = 1 ∷ [];
        before_images = (1, 7 ∷ []) ∷ [];
        dirty_txn = (1, 4) ∷ [];
      }

rollback_done : (rollback_txn 4 pool).0 ≡ none
unfolding rollback_txn restore_pages restore_page restore_image find
rollback_done = refl

rollback_txn_restores_example :
    (find 1 (rollback_txn 4 pool).1.frames
      ≡ some (record page { contents = 7 ∷ []; dirty = false }))
    × (find 1 (rollback_txn 4 pool).1.before_images ≡ none)
unfolding find
rollback_txn_restores_example =
    rollback_txn_restores 1 4 (7 ∷ []) page pool refl refl refl refl rollback_done

abbrev log : Wal
log = record { contents = []; offset = 0; next_lsn = 1 }

-- The memory before the first transaction.
abbrev blank : ℕ → Txn
blank p = record { id = 0; state = txn_aborted }

abbrev fresh : TxnManager
fresh = new_txn_manager log pool blank

abbrev one_begun : TxnManager
one_begun = (begin complete fresh).1

numbers_left : fresh.next_id + 1 < 2 ^ 64
unfolding new_txn_manager
numbers_left = omega arith

one_committed : Calls fresh (commit complete 0 one_begun).1
one_committed =
    and_call fresh one_begun (commit complete 0 one_begun).1
      (and_call fresh fresh one_begun (no_call fresh) (begins complete fresh numbers_left))
      (commits complete 0 one_begun)

reachable-IsManaged_example : IsManaged (commit complete 0 one_begun).1
reachable-IsManaged_example =
    reachable-IsManaged log pool blank (commit complete 0 one_begun).1 one_committed

-- What the caller of Begin and the manager hold is one transaction: Commit changes it.
committed_test : ((commit complete 0 one_begun).1.txns 0).state ≡ txn_committed
unfolding begin log_txn new_txn store commit log_end finish new_txn_manager write_record txn_record
committed_test = refl

-- Transaction 4 is active, and has locked a table.
abbrev txns : ℕ → Txn
txns p = record { id = 4; state = txn_active }

abbrev locks : LockManager
locks = (116 ∷ [], record { holders = (4, lock_exclusive) ∷ []; waiters = [] }) ∷ []

abbrev manager : TxnManager
manager = record {
  next_id = 5;
  active = (4, 0) ∷ [];
  lock_mgr = locks;
  wal = log;
  pool = pool;
  txns = txns;
  next_ptr = 1;
}

waits_nowhere : WaitsNowhere 4 locks
unfolding entry_of find
waits_nowhere t = ground arith

commit_ends_example :
    ((commit complete 0 manager).0 ≡ none)
    × ((commit complete 0 manager).1.txns 0 ≡ record { id = 4; state = txn_committed })
    × (IsOver 4 (commit complete 0 manager).1)
    × ((commit complete 0 manager).1.wal
        ≡ (write_record log (txn_record record_commit 4) complete).2)
commit_ends_example = commit_ends 0 manager refl waits_nowhere

rollback_ends_example :
    ((rollback complete 0 manager).0 ≡ none)
    × ((rollback complete 0 manager).1.txns 0 ≡ record { id = 4; state = txn_aborted })
    × (IsOver 4 (rollback complete 0 manager).1)
    × ((rollback complete 0 manager).1.pool.frames ≡ (rollback_txn 4 pool).1.frames)
    × ((rollback complete 0 manager).1.wal
        ≡ (write_record log (txn_record record_abort 4) complete).2)
rollback_ends_example = rollback_ends 0 manager refl waits_nowhere rollback_done
