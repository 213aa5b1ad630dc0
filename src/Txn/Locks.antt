-- ===== src/Txn/Locks.antt =====
-- The lock manager of txn/lock_manager.go: shared and exclusive locks on tables.
-- A call runs under the manager's mutex, so it is one step. A waiter's channel is its transaction's
-- number: that the channel is closed is that the waiter is in the list of those granted.
pub mod Entry
pub mod Granting
pub mod Sound
pub mod Reachable
pub mod ReleaseAll
use my_sqlight.Prelude.{
  ℕ, Bool, true, false, not, ◌&&◌, Option, none, some, List, [], ◌∷◌, ◌++◌, if◌then◌else◌,
}
use my_sqlight.Bytes.{Bytes}
use my_sqlight.Maps.{Map, nat_eq, bytes_eq, find, put, delete}
use my_sqlight.Txn.Locks.Entry.{LockMode, Waiter, LockEntry, can_grant, grant_waiters}

abbrev pub LockManager : Type 0
LockManager = Map Bytes LockEntry

abbrev pub new_lock_manager : LockManager
new_lock_manager = []

abbrev pub new_entry : LockEntry
new_entry = record { holders = []; waiters = [] }

-- The entry of a table, a fresh one if there is none.
unfoldable pub entry_of : Bytes → LockManager → LockEntry
entry_of table lm = elim (find table lm) [ some entry ↦ entry | none ↦ new_entry ]

-- `Acquire`: the lock is granted, or the transaction waits (and the caller blocks).
unfoldable pub acquire_entry : ℕ → LockMode → LockEntry → LockEntry × Bool
acquire_entry txn_id mode entry =
    if can_grant entry.holders mode
    then (record entry { holders = put txn_id mode entry.holders }, true)
    else (
      record entry { waiters = entry.waiters ++ (record { txn_id = txn_id; mode = mode } ∷ []) },
      false,
    )

unfoldable pub acquire : ℕ → Bytes → LockMode → LockManager → LockManager × Bool
acquire txn_id table mode lm =
    let (entry, granted) = acquire_entry txn_id mode (entry_of table lm) in
    (put table entry lm, granted)

-- `Release`: the holder leaves, and waiters are granted the lock from the first one on.
unfoldable pub release_entry : ℕ → LockEntry → LockEntry × List Waiter
release_entry txn_id entry =
    let (holders', remaining, granted) =
      grant_waiters false (delete txn_id entry.holders) entry.waiters in
    (record { holders = holders'; waiters = remaining }, granted)

unfoldable pub release : ℕ → Bytes → LockManager → LockManager × List Waiter
release txn_id table lm = elim (find table lm) [
  | none ↦ (lm, [])
  | some entry ↦
      let (entry', granted) = release_entry txn_id entry in (put table entry' lm, granted)
]

-- The tables that a transaction holds a lock on.
unfoldable pub held_tables : ℕ → LockManager → List Bytes
held_tables txn_id [] = []
held_tables txn_id ((table, entry) ∷ lm) = elim (find txn_id entry.holders) [
  | none ↦ held_tables txn_id lm
  | some mode ↦ table ∷ held_tables txn_id lm
]

unfoldable pub release_tables : ℕ → List Bytes → LockManager → LockManager
release_tables txn_id [] lm = lm
release_tables txn_id (table ∷ tables) lm = release_tables txn_id tables (release txn_id table lm).0

-- `ReleaseAll`, where no other call comes between its releases. The source unlocks between them; such
-- an interleaving is a sequence of `release` steps and others.
unfoldable pub release_all : ℕ → LockManager → LockManager
release_all txn_id lm = release_tables txn_id (held_tables txn_id lm) lm
