-- ===== src/Txn/Locks/Sound.antt =====
-- Each call keeps every table's entry sound.
use my_sqlight.Prelude.{
  subst, Option-cases, ℕ, ◌≡◌, refl, sym, ap, ◌∙◌, arith, true, false, some, List, [], ◌∷◌, ◌++◌,
  if◌then◌else◌, Bool-cases, inl, inr,
}
use my_sqlight.Bytes.{Bytes}
use my_sqlight.Maps.{nat_eq, bytes_eq, bytes_beq, find, put, delete, find-put}
use my_sqlight.Txn.Locks.{
  LockManager, entry_of, acquire_entry, acquire, release_entry, release, release_tables,
}
use my_sqlight.Txn.Locks.Entry.{
  LockMode, lock_shared, lock_exclusive, Waiter, Holders, LockEntry, is_exclusive, can_grant,
  Settled, IsSound,
}
use my_sqlight.Txn.Locks.Granting.{
  can_grant-exclusive, put-Compatible, delete-Compatible, LockMode-cases, grant_waiters-IsSound,
}

put-exclusive :
    (id : ℕ) (mode : LockMode) (holders : Holders)
    → can_grant (put id mode holders) lock_exclusive ≡ false
unfolding can_grant put is_exclusive
put-exclusive id mode [] = refl
put-exclusive id mode ((j, m) ∷ holders) = ground arith

-- A waiter that could not be granted the lock cannot be after somebody else was.
no_room :
    (mode : LockMode) (holders : Holders)
    → can_grant holders mode ≡ true
    → can_grant holders lock_shared ≡ false
    → ⊥
unfolding can_grant
no_room lock_shared holders can taken = cc
no_room lock_exclusive [] can taken = cc
no_room lock_exclusive (x ∷ holders) can taken = cc (can_grant-exclusive (x ∷ holders) can)

Settled-put :
    (id : ℕ) (mode : LockMode) (holders : Holders) (ws : List Waiter)
    → can_grant holders mode ≡ true
    → Settled holders ws
    → Settled (put id mode holders) ws
Settled-put id mode holders [] can h = tt
Settled-put id mode holders (w ∷ ws) can h = elim (LockMode-cases w.mode) [
  | inr exclusive ↦ ap (can_grant (put id mode holders)) exclusive ∙ put-exclusive id mode holders
  | inl shared ↦
      let taken : can_grant holders lock_shared ≡ false = ap (can_grant holders) (sym shared) ∙ h in
      absurd (no_room mode holders can taken)
]

Settled-append :
    (holders : Holders) (ws : List Waiter) (w : Waiter)
    → can_grant holders w.mode ≡ false
    → Settled holders ws
    → Settled holders (ws ++ (w ∷ []))
Settled-append holders [] w no_room h = no_room
Settled-append holders (x ∷ ws) w no_room h = h

acquire_entry-IsSound :
    (txn_id : ℕ) (mode : LockMode) (entry : LockEntry)
    → IsSound entry
    → IsSound (acquire_entry txn_id mode entry).0
unfolding acquire_entry
acquire_entry-IsSound txn_id mode entry h = elim (Bool-cases (can_grant entry.holders mode)) [
  | inl can ↦
      rw (can, acquire_entry)
        (record {
          compatible = put-Compatible txn_id mode entry.holders can;
          settled = Settled-put txn_id mode entry.holders entry.waiters can h.settled;
        })
  | inr no_room ↦
      rw (no_room, acquire_entry)
        (record {
          compatible = h.compatible;
          settled = Settled-append entry.holders entry.waiters _ no_room h.settled;
        })
]

release_entry-IsSound :
    (txn_id : ℕ) (entry : LockEntry) → IsSound entry → IsSound (release_entry txn_id entry).0
unfolding release_entry
release_entry-IsSound txn_id entry h =
    let (compatible', settled') =
      grant_waiters-IsSound entry.waiters (delete txn_id entry.holders)
        (delete-Compatible txn_id entry.holders h.compatible) in
    record { compatible = compatible'; settled = settled' }

pub entry_of-found :
    (table : Bytes) (lm : LockManager) (entry : LockEntry)
    → find table lm ≡ some entry
    → entry_of table lm ≡ entry
unfolding entry_of
entry_of-found table lm entry e = rw (e, entry_of)

pub entry_of-put :
    (t table : Bytes) (entry : LockEntry) (lm : LockManager)
    → entry_of t (put table entry lm) ≡ (if bytes_beq t table then entry else entry_of t lm)
unfolding entry_of
entry_of-put t table entry lm = ground (arith, find-put t table entry lm)

abbrev pub AllSound : LockManager → Type 0
AllSound lm = (table : Bytes) → IsSound (entry_of table lm)

AllSound-put :
    (table : Bytes) (entry : LockEntry) (lm : LockManager)
    → IsSound entry
    → AllSound lm
    → AllSound (put table entry lm)
AllSound-put table entry lm h all t = elim (Bool-cases (bytes_beq t table)) [
  | inl e ↦ rw (entry_of-put t table entry lm, e) h
  | inr e ↦ rw (entry_of-put t table entry lm, e) (all t)
]

pub acquire-AllSound :
    (txn_id : ℕ) (table : Bytes) (mode : LockMode) (lm : LockManager)
    → AllSound lm
    → AllSound (acquire txn_id table mode lm).0
unfolding acquire
acquire-AllSound txn_id table mode lm h =
    AllSound-put table _ lm (acquire_entry-IsSound txn_id mode (entry_of table lm) (h table)) h

pub release-AllSound :
    (txn_id : ℕ) (table : Bytes) (lm : LockManager)
    → AllSound lm
    → AllSound (release txn_id table lm).0
unfolding release
release-AllSound txn_id table lm h = elim (Option-cases (find table lm)) [
  | inl absent ↦ rw (absent, release) h
  | inr (entry, found) ↦
      rw (found, release)
        (AllSound-put table _ lm
          (release_entry-IsSound txn_id entry
            (subst IsSound (entry_of-found table lm entry found) (h table)))
          h)
]

pub release_tables-AllSound :
    (txn_id : ℕ) (tables : List Bytes) (lm : LockManager)
    → AllSound lm
    → AllSound (release_tables txn_id tables lm)
unfolding release_tables
release_tables-AllSound txn_id [] lm h = h
release_tables-AllSound txn_id (t ∷ ts) lm h =
    release_tables-AllSound txn_id ts (release txn_id t lm).0 (release-AllSound txn_id t lm h)
