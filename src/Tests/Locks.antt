-- ===== src/Tests/Locks.antt =====
-- Tests of the lock manager (txn/lock_manager.go).
use my_sqlight.Txn.Locks.ReleaseAll.{
  release_entry_fifo, release_entry_serves, release_all_holds_nothing, WaitsNowhere,
}
use my_sqlight.Bytes.{Bytes}
use my_sqlight.Txn.Locks.Reachable.{
  first_waiter_blocked, exclusive_alone, acquires, start, step, Reached,
}
use my_sqlight.Txn.Locks.{
  new_lock_manager, release_all, acquire_entry, acquire, LockManager, release_entry, entry_of,
}
use my_sqlight.Prelude.{arith, ◌≢◌, some, none, [], false, ◌∷◌, ◌≡◌, ◌++◌, refl}
use my_sqlight.Maps.{bytes_beq, delete, put, find, nat_eq, bytes_eq}
use my_sqlight.Txn.Locks.Entry.{
  all_shared, is_exclusive, lock_shared, lock_exclusive, Waiter, can_grant, LockEntry,
}

abbrev users : Bytes
users = 117 ∷ []

-- Transaction 1 holds the lock of the table, and 2 waits for it.
abbrev busy : LockManager
busy = (acquire 2 users lock_shared (acquire 1 users lock_exclusive new_lock_manager).0).0

busy-Reached : Reached busy
busy-Reached = step (step start (acquires 1 users lock_exclusive)) (acquires 2 users lock_shared)

abbrev waiter : Waiter
waiter = record { txn_id = 2; mode = lock_shared }

busy-users :
    entry_of users busy ≡ record { holders = (1, lock_exclusive) ∷ []; waiters = waiter ∷ [] }
unfolding acquire acquire_entry entry_of find put can_grant is_exclusive all_shared bytes_beq
busy-users = refl

holds_users : find 1 (entry_of users busy).holders ≡ some lock_exclusive
unfolding find
holds_users = rw busy-users refl

exclusive_alone_example : find 2 (entry_of users busy).holders ≡ none
exclusive_alone_example = exclusive_alone users 1 2 busy-Reached holds_users (λ e. omega arith)

first_waiter_blocked_example :
    (can_grant (entry_of users busy).holders lock_shared ≡ false)
    × ((entry_of users busy).holders ≢ [])
first_waiter_blocked_example =
    first_waiter_blocked users waiter [] busy-Reached (rw busy-users refl)

abbrev entry : LockEntry
entry = record { holders = (1, lock_exclusive) ∷ []; waiters = waiter ∷ [] }

release_entry_fifo_example :
    (release_entry 1 entry).1 ++ (release_entry 1 entry).0.waiters ≡ waiter ∷ []
release_entry_fifo_example = release_entry_fifo 1 entry

release_entry_serves_example : (release_entry 1 entry).1 ≢ []
unfolding delete
release_entry_serves_example = release_entry_serves 1 entry refl (λ e. cc)

waits_nowhere : WaitsNowhere 1 ((users, entry) ∷ [])
unfolding entry_of find
waits_nowhere t = ground arith

release_all_holds_nothing_example :
    find 1 (entry_of users (release_all 1 ((users, entry) ∷ []))).holders ≡ none
release_all_holds_nothing_example =
    release_all_holds_nothing 1 users ((users, entry) ∷ []) waits_nowhere
