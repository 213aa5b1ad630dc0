-- ===== src/Txn/Locks/Entry.antt =====
-- The lock entry of one table: who holds it, who waits, and who is granted it next.
use my_sqlight.Prelude.{
  ℕ, ◌≡◌, Bool, true, false, not, ◌&&◌, List, [], ◌∷◌, length, if◌then◌else◌, ◌⊎◌,
}
use my_sqlight.Maps.{Map, nat_eq, put}

pub data LockMode : Type 0 where
  lock_shared lock_exclusive : LockMode

pub record Waiter : Type 0 where
  pub txn_id : ℕ
  pub mode : LockMode

abbrev pub Holders : Type 0
Holders = Map ℕ LockMode

pub record LockEntry : Type 0 where
  pub holders : Holders
  pub waiters : List Waiter

unfoldable pub is_exclusive : LockMode → Bool
is_exclusive lock_shared = false
is_exclusive lock_exclusive = true

-- The loop over the holders in `canGrant`.
unfoldable pub all_shared : Holders → Bool
all_shared [] = true
all_shared ((id, mode) ∷ holders) = if is_exclusive mode then false else all_shared holders

-- `canGrant`
unfoldable pub can_grant : Holders → LockMode → Bool
can_grant [] mode = true
can_grant (h ∷ holders) mode = if is_exclusive mode then false else all_shared (h ∷ holders)

-- The loop of `Release` over the waiters: the holders, those who go on waiting, and those granted.
unfoldable pub grant_waiters : Bool → Holders → List Waiter → Holders × List Waiter × List Waiter
grant_waiters stop_granting holders [] = (holders, [], [])
grant_waiters stop_granting holders (w ∷ ws) =
    elim (not stop_granting && can_grant holders w.mode) [
      | true ↦
          let (holders', remaining, granted) =
            grant_waiters (is_exclusive w.mode) (put w.txn_id w.mode holders) ws in
          (holders', remaining, w ∷ granted)
      | false ↦
          let (holders', remaining, granted) = grant_waiters true holders ws in
          (holders', w ∷ remaining, granted)
    ]

-- Either all holders share the lock, or there is one holder.
abbrev pub Compatible : Holders → Type 0
Compatible holders = (all_shared holders ≡ true) ⊎ (length holders ≡ 1)

-- Whoever waits first could not be granted the lock now.
abbrev pub Settled : Holders → List Waiter → Type 0
Settled holders [] = Unit
Settled holders (w ∷ ws) = can_grant holders w.mode ≡ false

pub record IsSound (entry : LockEntry) : Type 0 where
  pub compatible : Compatible entry.holders
  pub settled : Settled entry.holders entry.waiters
