-- ===== src/Txn/Locks/ReleaseAll.antt =====
-- What `Release` and `ReleaseAll` see to: whoever waits longest is served first, and a transaction
-- that releases all its locks holds none.
use my_sqlight.Prelude.{
  subst, ℕ, ◌≡◌, ◌≢◌, ◌==◌, refl, sym, ◌∙◌, arith, Bool, true, false, not, ◌&&◌, ◌||◌, Option, none,
  some, List, [], ◌∷◌, ◌++◌, if◌then◌else◌, Bool-cases, Option-cases, inl, inr,
}
use my_sqlight.Bytes.{Bytes}
use my_sqlight.Catalog.Stored.{All}
use my_sqlight.Maps.{
  nat_eq, bytes_eq, bytes_beq, bytes_eq_iff, find, put, delete, find-put, find-delete,
}
use my_sqlight.Txn.Locks.{
  LockManager, entry_of, release_entry, release, release_tables, release_all, held_tables,
}
use my_sqlight.Txn.Locks.Entry.{
  LockMode, Waiter, Holders, LockEntry, is_exclusive, can_grant, grant_waiters,
}
use my_sqlight.Txn.Locks.Granting.{grant_waiters_fifo}
use my_sqlight.Txn.Locks.Sound.{entry_of-put, entry_of-found}

grant_waiters_free : (ws : List Waiter) → ws ≢ [] → (grant_waiters false [] ws).2 ≢ []
unfolding grant_waiters can_grant
grant_waiters_free [] h = absurd (h refl)
grant_waiters_free (w ∷ ws) h = λ e. cc

-- `Release` grants a table's lock in the order of waiting: those that it grants the lock stood before
-- those who go on waiting, and nobody is lost or served twice.
pub release_entry_fifo :
    (txn_id : ℕ) (entry : LockEntry)
    → (release_entry txn_id entry).1 ++ (release_entry txn_id entry).0.waiters ≡ entry.waiters
unfolding release_entry
release_entry_fifo txn_id entry =
    grant_waiters_fifo entry.waiters false (delete txn_id entry.holders)

-- Where nobody but the transaction that leaves holds a table's lock, and somebody waits, `Release`
-- grants it to somebody.
pub release_entry_serves :
    (txn_id : ℕ) (entry : LockEntry)
    → delete txn_id entry.holders ≡ []
    → entry.waiters ≢ []
    → (release_entry txn_id entry).1 ≢ []
unfolding release_entry
release_entry_serves txn_id entry free waiting =
    subst (λ holders. (grant_waiters false holders entry.waiters).2 ≢ []) (sym free)
      (grant_waiters_free entry.waiters waiting)

-- The transaction does not wait for any table's lock.
abbrev pub NotWaiting : ℕ → List Waiter → Type 0
NotWaiting id ws = All (λ w. id ≢ w.txn_id) ws

abbrev pub WaitsNowhere : ℕ → LockManager → Type 0
WaitsNowhere id lm = (table : Bytes) → NotWaiting id (entry_of table lm).waiters

grant_waiters-find :
    (id : ℕ) (ws : List Waiter) (stop : Bool) (holders : Holders)
    → NotWaiting id ws
    → (find id (grant_waiters stop holders ws).0 ≡ find id holders)
      × NotWaiting id (grant_waiters stop holders ws).1
unfolding grant_waiters
grant_waiters-find id [] stop holders h = (refl, tt)
grant_waiters-find id (w ∷ ws) stop holders (hw, hws) =
    elim (Bool-cases (not stop && can_grant holders w.mode)) [
      | inl e ↦
          let (same, others) =
            grant_waiters-find id ws (is_exclusive w.mode) (put w.txn_id w.mode holders) hws in
          rw (e, grant_waiters) (same ∙ find-put id w.txn_id w.mode holders ∙ other_key, others)
      | inr e ↦
          let (same, others) = grant_waiters-find id ws true holders hws in
          rw (e, grant_waiters) (same, (hw, others))
    ]
  where
    other_key : (if id == w.txn_id then some w.mode else find id holders) ≡ find id holders
    other_key = ground arith

-- What the transaction holds on a table, if anything.
abbrev held : ℕ → Bytes → LockManager → Option LockMode
held id table lm = find id (entry_of table lm).holders

release_entry-held :
    (id : ℕ) (entry : LockEntry)
    → NotWaiting id entry.waiters
    → (find id (release_entry id entry).0.holders ≡ none)
      × NotWaiting id (release_entry id entry).0.waiters
unfolding release_entry
release_entry-held id entry h =
    let (same, others) = grant_waiters-find id entry.waiters false (delete id entry.holders) h in
    (same ∙ find-delete id id entry.holders ∙ own_key, others)
  where
    own_key : (if id == id then none else find id entry.holders) ≡ none
    own_key = ground arith

nothing_held :
    (id : ℕ) (table : Bytes) (lm : LockManager) → find table lm ≡ none → held id table lm ≡ none
unfolding entry_of find
nothing_held id table lm absent = rw (absent, entry_of) refl

release-held :
    (id : ℕ) (t table : Bytes) (lm : LockManager)
    → WaitsNowhere id lm
    → held id t (release id table lm).0 ≡ (if bytes_beq t table then none else held id t lm)
unfolding release
release-held id t table lm h = elim (Bool-cases (bytes_beq t table)) [
  | inr e ↦ elim (Option-cases (find table lm)) [
    | inl absent ↦ rw (absent, release, e) refl
    | inr (entry, found) ↦
        rw (found, release, entry_of-put t table (release_entry id entry).0 lm, e) refl
  ]
  | inl e ↦ elim (Option-cases (find table lm)) [
    | inl absent ↦
        rw (absent, release, e, (bytes_eq_iff t table).0 e) (nothing_held id table lm absent)
    | inr (entry, found) ↦
        rw (found, release, entry_of-put t table (release_entry id entry).0 lm, e)
          (release_entry-held id entry (
            subst (λ x. NotWaiting id x.waiters) (entry_of-found table lm entry found) (h table))).0
  ]
]

release-WaitsNowhere :
    (id : ℕ) (table : Bytes) (lm : LockManager)
    → WaitsNowhere id lm
    → WaitsNowhere id (release id table lm).0
unfolding release
release-WaitsNowhere id table lm h t = elim (Option-cases (find table lm)) [
  | inl absent ↦ rw (absent, release) (h t)
  | inr (entry, found) ↦
      rw (found, release, entry_of-put t table (release_entry id entry).0 lm)
        (elim (Bool-cases (bytes_beq t table)) [
          | inl e ↦ rw e (release_entry-held id entry (own found)).1
          | inr e ↦ rw e (h t)
        ])
]
  where
    own : {entry : LockEntry} → find table lm ≡ some entry → NotWaiting id entry.waiters
    own {entry} found =
        subst (λ x. NotWaiting id x.waiters) (entry_of-found table lm entry found) (h table)

unfoldable occurs : Bytes → List Bytes → Bool
occurs t [] = false
occurs t (x ∷ xs) = bytes_beq t x || occurs t xs

release_tables-held :
    (id : ℕ) (t : Bytes) (tables : List Bytes) (lm : LockManager)
    → WaitsNowhere id lm
    → held id t (release_tables id tables lm) ≡ (if occurs t tables then none else held id t lm)
unfolding release_tables occurs
release_tables-held id t [] lm h = refl
release_tables-held id t (x ∷ xs) lm h = ground (
  arith,
  release-held id t x lm h,
  release_tables-held id t xs (release id x lm).0 (release-WaitsNowhere id x lm h),
)

held_tables-covers :
    (id : ℕ) (t : Bytes) (lm : LockManager)
    → occurs t (held_tables id lm) ≡ false
    → held id t lm ≡ none
unfolding held_tables occurs entry_of find
held_tables-covers id t [] h = refl
held_tables-covers id t ((x, entry) ∷ lm) h = ground (arith, held_tables-covers id t lm)

-- `ReleaseAll` of a transaction that waits for no lock: it holds no table's lock any more.
pub release_all_holds_nothing :
    (id : ℕ) (table : Bytes) (lm : LockManager)
    → WaitsNowhere id lm
    → find id (entry_of table (release_all id lm)).holders ≡ none
unfolding release_all
release_all_holds_nothing id table lm h =
    release_tables-held id table (held_tables id lm) lm h
    ∙ elim (Bool-cases (occurs table (held_tables id lm))) [
      | inl e ↦ rw e refl
      | inr e ↦ rw e (held_tables-covers id table lm e)
    ]
