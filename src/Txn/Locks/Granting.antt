-- ===== src/Txn/Locks/Granting.antt =====
-- Granting: what `canGrant` and the loop of `Release` over the waiters see to.
use my_sqlight.Prelude.{
  subst, Bool-cases, ◌++◌, ◌≤◌, ℕ, ◌≡◌, refl, sym, ap, ◌∙◌, arith, Bool, true, false, not, ◌&&◌,
  List, [], ◌∷◌, length, ◌⊎◌, inl, inr,
}
use my_sqlight.Maps.{nat_eq, put, delete}
use my_sqlight.Txn.Locks.Entry.{
  LockMode, lock_shared, lock_exclusive, Waiter, Holders, is_exclusive, all_shared, can_grant,
  grant_waiters, Compatible, Settled,
}

pub can_grant-exclusive :
    (holders : Holders) → can_grant holders lock_exclusive ≡ true → holders ≡ []
unfolding can_grant is_exclusive
can_grant-exclusive [] h = refl
can_grant-exclusive (x ∷ holders) h = cc

pub can_grant-shared : (holders : Holders) → can_grant holders lock_shared ≡ all_shared holders
unfolding can_grant is_exclusive all_shared
can_grant-shared [] = refl
can_grant-shared (x ∷ holders) = refl

all_shared-put :
    (id : ℕ) (holders : Holders)
    → all_shared holders ≡ true
    → all_shared (put id lock_shared holders) ≡ true
unfolding all_shared put is_exclusive
all_shared-put id [] h = refl
all_shared-put id ((j, mode) ∷ holders) h = ground (arith, all_shared-put id holders)

all_shared-delete :
    (id : ℕ) (holders : Holders) → all_shared holders ≡ true → all_shared (delete id holders) ≡ true
unfolding all_shared delete is_exclusive
all_shared-delete id [] h = refl
all_shared-delete id ((j, mode) ∷ holders) h = ground (arith, all_shared-delete id holders)

-- A granted lock leaves compatible holders.
pub put-Compatible :
    (id : ℕ) (mode : LockMode) (holders : Holders)
    → can_grant holders mode ≡ true
    → Compatible (put id mode holders)
put-Compatible id lock_shared holders h =
    inl (all_shared-put id holders (sym (can_grant-shared holders) ∙ h))
put-Compatible id lock_exclusive holders h = inr (
    ap (λ hs. length (put id lock_exclusive hs)) (can_grant-exclusive holders h)
    ∙ unfold put in refl)

length-delete-le : (id : ℕ) (holders : Holders) → length (delete id holders) ≤ length holders
unfolding delete
length-delete-le id [] = omega arith
length-delete-le id ((j, mode) ∷ holders) = ground (arith, length-delete-le id holders)

delete_one : (id : ℕ) (holders : Holders) → length holders ≡ 1 → Compatible (delete id holders)
unfolding delete all_shared
delete_one id [] h = inl refl
delete_one id ((j, mode) ∷ []) h = ground arith
delete_one id (x ∷ y ∷ holders) h = absurd (omega arith)

pub delete-Compatible :
    (id : ℕ) (holders : Holders) → Compatible holders → Compatible (delete id holders)
delete-Compatible id holders (inl h) = inl (all_shared-delete id holders h)
delete-Compatible id holders (inr h) = delete_one id holders h

pub LockMode-cases : (mode : LockMode) → (mode ≡ lock_shared) ⊎ (mode ≡ lock_exclusive)
LockMode-cases lock_shared = inl refl
LockMode-cases lock_exclusive = inr refl

-- Once granting has stopped, everybody goes on waiting.
grant_waiters_stopped :
    (holders : Holders) (ws : List Waiter) → grant_waiters true holders ws ≡ (holders, ws, [])
unfolding grant_waiters
grant_waiters_stopped holders [] = refl
grant_waiters_stopped holders (w ∷ ws) = rw (grant_waiters_stopped holders ws)

exclusive-Settled : (id : ℕ) (ws : List Waiter) → Settled (put id lock_exclusive []) ws
unfolding can_grant put all_shared is_exclusive
exclusive-Settled id [] = tt
exclusive-Settled id (w ∷ ws) = ground arith

grant_waiters_refused :
    (holders : Holders) (w : Waiter) (ws : List Waiter)
    → can_grant holders w.mode ≡ false
    → grant_waiters false holders (w ∷ ws) ≡ (holders, w ∷ ws, [])
unfolding grant_waiters
grant_waiters_refused holders w ws h = ground (arith, h, grant_waiters_stopped holders ws)

grant_waiters_exclusive :
    (w : Waiter) (ws : List Waiter)
    → w.mode ≡ lock_exclusive
    → grant_waiters false [] (w ∷ ws) ≡ (put w.txn_id lock_exclusive [], ws, w ∷ [])
unfolding grant_waiters can_grant is_exclusive
grant_waiters_exclusive w ws h =
    ground (arith, h, grant_waiters_stopped (put w.txn_id lock_exclusive []) ws)

grant_waiters_shared :
    (holders : Holders) (w : Waiter) (ws : List Waiter)
    → w.mode ≡ lock_shared
    → can_grant holders lock_shared ≡ true
    → let rest = grant_waiters false (put w.txn_id lock_shared holders) ws in
      grant_waiters false holders (w ∷ ws) ≡ (rest.0, rest.1, w ∷ rest.2)
unfolding grant_waiters is_exclusive
grant_waiters_shared holders w ws h can = ground (arith, h, can)

abbrev Granted : Type 0
Granted = Holders × List Waiter × List Waiter

abbrev SoundOutcome : Granted → Type 0
SoundOutcome r = Compatible r.0 × Settled r.0 r.1

-- Granting keeps the holders compatible, and stops only before somebody who cannot be granted.
pub grant_waiters-IsSound :
    (ws : List Waiter) (holders : Holders)
    → Compatible holders
    → SoundOutcome (grant_waiters false holders ws)
unfolding grant_waiters can_grant
grant_waiters-IsSound [] holders h = (h, tt)
grant_waiters-IsSound (w ∷ ws) holders h = elim (Bool-cases (can_grant holders w.mode)) [
  | inr refused ↦ subst SoundOutcome (sym (grant_waiters_refused holders w ws refused)) (h, refused)
  | inl can ↦ elim (LockMode-cases w.mode) [
    | inl shared ↦
        let can' = ap (can_grant holders) (sym shared) ∙ can in
        subst SoundOutcome (sym (grant_waiters_shared holders w ws shared can')) (
          grant_waiters-IsSound ws (put w.txn_id lock_shared holders)
            (put-Compatible w.txn_id lock_shared holders can'))
    | inr exclusive ↦
        let none_holds =
          can_grant-exclusive holders (ap (can_grant holders) (sym exclusive) ∙ can) in
        subst (λ hs. SoundOutcome (grant_waiters false hs (w ∷ ws))) (sym none_holds)
          (subst SoundOutcome (sym (grant_waiters_exclusive w ws exclusive))
            (put-Compatible w.txn_id lock_exclusive [] refl, exclusive-Settled w.txn_id ws))
  ]
]

-- The lock is granted in the order of waiting: those granted stood before those who go on waiting.
pub grant_waiters_fifo :
    (ws : List Waiter) (stop : Bool) (holders : Holders)
    → (grant_waiters stop holders ws).2 ++ (grant_waiters stop holders ws).1 ≡ ws
unfolding grant_waiters
grant_waiters_fifo [] stop holders = refl
grant_waiters_fifo (w ∷ ws) stop holders =
    elim (Bool-cases (not stop && can_grant holders w.mode)) [
      | inl e ↦
          rw (e, grant_waiters)
            (ap (◌∷◌ w) (grant_waiters_fifo ws (is_exclusive w.mode) (put w.txn_id w.mode holders)))
      | inr e ↦ rw (e, grant_waiters) (rw (grant_waiters_stopped holders ws))
    ]
