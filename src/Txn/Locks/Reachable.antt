-- ===== src/Txn/Locks/Reachable.antt =====
-- Every state that calls of `Acquire`, `Release` and `ReleaseAll` lead to, in any order.
use my_sqlight.Prelude.{
  subst, ℕ, ◌≡◌, ◌≢◌, refl, sym, ap, ◌∙◌, arith, true, false, none, some, List, [], ◌∷◌, length,
  inl, inr,
}
use my_sqlight.Bytes.{Bytes}
use my_sqlight.Maps.{nat_eq, bytes_eq, find}
use my_sqlight.Txn.Locks.{
  LockManager, new_lock_manager, entry_of, acquire, release, release_all, held_tables,
}
use my_sqlight.Txn.Locks.Entry.{
  LockMode, lock_exclusive, Waiter, Holders, is_exclusive, all_shared, can_grant, Compatible,
  Settled,
}
use my_sqlight.Txn.Locks.Sound.{
  AllSound, acquire-AllSound, release-AllSound, release_tables-AllSound,
}

pub data LockStep (lm : LockManager) : LockManager → Type 0 where
  acquires :
      (txn_id : ℕ) (table : Bytes) (mode : LockMode) → LockStep lm (acquire txn_id table mode lm).0
  releases : (txn_id : ℕ) (table : Bytes) → LockStep lm (release txn_id table lm).0
  releases_all : (txn_id : ℕ) → LockStep lm (release_all txn_id lm)

pub data Reached : LockManager → Type 0 where
  start : Reached new_lock_manager
  step : {lm lm' : LockManager} → Reached lm → LockStep lm lm' → Reached lm'

LockStep-AllSound : {lm lm' : LockManager} → LockStep lm lm' → AllSound lm → AllSound lm'
unfolding release_all
LockStep-AllSound {lm} (acquires id table mode) h = acquire-AllSound id table mode lm h
LockStep-AllSound {lm} (releases id table) h = release-AllSound id table lm h
LockStep-AllSound {lm} (releases_all id) h = release_tables-AllSound id (held_tables id lm) lm h

Reached-AllSound : {lm : LockManager} → Reached lm → AllSound lm
unfolding entry_of find all_shared
Reached-AllSound start = λ table. record { compatible = inl refl; settled = tt }
Reached-AllSound (step r s) = LockStep-AllSound s (Reached-AllSound r)

find-all_shared :
    (id : ℕ) (holders : Holders) → all_shared holders ≡ true → find id holders ≢ some lock_exclusive
unfolding all_shared find is_exclusive
find-all_shared id [] h = λ e. cc
find-all_shared id ((j, mode) ∷ holders) h = λ e. ground (arith, find-all_shared id holders)

find_one :
    (id other : ℕ) (holders : Holders) (mode : LockMode)
    → length holders ≡ 1
    → find id holders ≡ some mode
    → other ≢ id
    → find other holders ≡ none
unfolding find
find_one id other [] mode h e ne = absurd (omega arith)
find_one id other ((j, m) ∷ []) mode h e ne = ground arith
find_one id other (x ∷ y ∷ holders) mode h e ne = absurd (omega arith)

Compatible-alone :
    (id other : ℕ) (holders : Holders)
    → Compatible holders
    → find id holders ≡ some lock_exclusive
    → other ≢ id
    → find other holders ≡ none
Compatible-alone id other holders (inl shared) e ne = absurd (find-all_shared id holders shared e)
Compatible-alone id other holders (inr one) e ne = find_one id other holders lock_exclusive one e ne

-- Mutual exclusion: whatever calls were made, and in whatever order, a transaction that holds a
-- table's lock exclusively is the only one to hold it.
pub exclusive_alone :
    {lm : LockManager} (table : Bytes) (id other : ℕ)
    → Reached lm
    → find id (entry_of table lm).holders ≡ some lock_exclusive
    → other ≢ id
    → find other (entry_of table lm).holders ≡ none
exclusive_alone {lm} table id other r e ne =
    Compatible-alone id other (entry_of table lm).holders (Reached-AllSound r table).compatible e ne

-- No wake-up is lost: whatever calls were made, whoever waits first for a table's lock could not be
-- granted it in the mode asked for, and somebody holds it.
pub first_waiter_blocked :
    {lm : LockManager} (table : Bytes) (w : Waiter) (ws : List Waiter)
    → Reached lm
    → (entry_of table lm).waiters ≡ w ∷ ws
    → (can_grant (entry_of table lm).holders w.mode ≡ false) × ((entry_of table lm).holders ≢ [])
first_waiter_blocked {lm} table w ws r e = (
  blocked,
  λ empty. cc (sym blocked ∙ ap (λ hs. can_grant hs w.mode) empty ∙ can_grant_empty w.mode),
)
  where
    blocked : can_grant (entry_of table lm).holders w.mode ≡ false
    blocked = subst (Settled (entry_of table lm).holders) e (Reached-AllSound r table).settled

    can_grant_empty : (mode : LockMode) → can_grant [] mode ≡ true
    can_grant_empty mode = unfold can_grant in refl
