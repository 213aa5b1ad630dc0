-- ===== src/Txn/Manager/Invariant.antt =====
-- The transactions that the manager holds as active.
use my_sqlight.Prelude.{
  ==_iff, ℕ, ◌+◌, ◌%◌, ◌^◌, ◌<◌, ◌==◌, ◌≡◌, ◌≢◌, ap, ◌∙◌, ◌⊎◌, sym, subst, arith, refl,
  if◌then◌else◌, some, none, Bool-cases, Option-cases, inl, inr,
}
use my_sqlight.Maps.{Map, nat_eq, find, put, delete, find-put, find-delete}
use my_sqlight.Wal.Log.{Wal, WriteOutcome}
use my_sqlight.Wal.Record.{RecordType, record_begin, record_commit, record_abort}
use my_sqlight.Storage.Pool.{BufferPool}
use my_sqlight.Txn.Manager.{
  Txn, TxnState, txn_active, txn_committed, txn_aborted, TxnManager, store, new_txn,
  new_txn_manager, begin, commit, rollback, finish, log_end, log_txn, undo_pages, is_active,
}

-- Every active transaction is registered under its own number, which has been given out, and the
-- transaction that its pointer leads to, which its caller holds as well, is in the active state.
pub IsManaged : TxnManager → Type 0
IsManaged m =
    (id txn : ℕ)
    → find id m.active ≡ some txn
    → (id < m.next_id)
      × (txn < m.next_ptr)
      × ((m.txns txn).id ≡ id)
      × ((m.txns txn).state ≡ txn_active)

-- A call of the manager, whatever becomes of its writes to the log. There are numbers left.
pub data Call : TxnManager → TxnManager → Type 0 where
  begins :
      (outcome : WriteOutcome) (m : TxnManager)
      → m.next_id + 1 < 2 ^ 64
      → Call m (begin outcome m).1
  commits : (outcome : WriteOutcome) (txn : ℕ) (m : TxnManager) → Call m (commit outcome txn m).1
  rolls_back :
      (outcome : WriteOutcome) (txn : ℕ) (m : TxnManager) → Call m (rollback outcome txn m).1

pub data Calls : TxnManager → TxnManager → Type 0 where
  no_call : (m : TxnManager) → Calls m m
  and_call : (a b c : TxnManager) → Calls a b → Call b c → Calls a c

new_txn_manager-IsManaged :
    (w : Wal) (pool : BufferPool) (txns : ℕ → Txn) → IsManaged (new_txn_manager w pool txns)
unfolding new_txn_manager IsManaged find
new_txn_manager-IsManaged w pool txns id txn h = cc

-- What matters of the manager: the number, the active ones, the free address and the memory.
Registered : ℕ → Map ℕ ℕ → ℕ → (ℕ → Txn) → Type 0
Registered next active free txns =
    (id txn : ℕ)
    → find id active ≡ some txn
    → (id < next) × (txn < free) × ((txns txn).id ≡ id) × ((txns txn).state ≡ txn_active)

abbrev active_txn : ℕ → Txn
active_txn id = record { id = id; state = txn_active }

next_number : (id next : ℕ) → id ≡ next → next + 1 < 2 ^ 64 → id < (next + 1) % 2 ^ 64
next_number id next own bound = omega arith

-- A new transaction does not move an old one.
store_other : (p q : ℕ) (t : Txn) (txns : ℕ → Txn) → q ≢ p → store p t txns q ≡ txns q
unfolding store
store_other p q t txns ne = ground arith

store_own : (p q : ℕ) (t : Txn) (txns : ℕ → Txn) → q ≡ p → store p t txns q ≡ t
unfolding store
store_own p q t txns e = ground arith

new-Registered :
    (next free : ℕ) (active : Map ℕ ℕ) (txns : ℕ → Txn)
    → Registered next active free txns
    → Registered next active (free + 1) (store free (active_txn next) txns)
unfolding Registered
new-Registered next free active txns h id txn found =
    let (lt, below, own, on) = h id txn found in
    let other : txn ≢ free = λ e. omega (arith, below, e) in
    (
      lt,
      omega (arith, below),
      rw (store_other free txn (active_txn next) txns other) own,
      rw (store_other free txn (active_txn next) txns other) on,
    )

put-Registered :
    (next free : ℕ) (active : Map ℕ ℕ) (txns : ℕ → Txn)
    → next + 1 < 2 ^ 64
    → Registered next active free txns
    → Registered
        ((next + 1) % 2 ^ 64)
        (put next free active)
        (free + 1)
        (store free (active_txn next) txns)
unfolding Registered
put-Registered next free active txns bound h id txn found = elim (Bool-cases (id == next)) [
  | inl e ↦
      let same : some free ≡ some txn =
        subst (λ o. o ≡ some txn) (find-put id next free active ∙ rw e refl) found in
      let it : txn ≡ free = cc in
      let own : id ≡ next = (==_iff id next).0 e in
      (
        next_number id next own bound,
        omega (arith, it),
        rw (store_own free txn (active_txn next) txns it) (sym own),
        rw (store_own free txn (active_txn next) txns it) refl,
      )
  | inr e ↦
      let old : find id active ≡ some txn =
        subst (λ o. o ≡ some txn) (find-put id next free active ∙ rw e refl) found in
      let (lt, below, own, on) = new-Registered next free active txns h id txn old in
      (omega (arith, lt), below, own, on)
]

delete-Registered :
    (next free p : ℕ) (t : Txn) (active : Map ℕ ℕ) (txns : ℕ → Txn)
    → Registered next active free txns
    → Registered next (delete (txns p).id active) free (store p t txns)
unfolding Registered
delete-Registered next free p t active txns h id txn found =
    let (ne, old) = still (subst (λ o. o ≡ some txn) (find-delete id (txns p).id active) found) in
    let (lt, below, own, on) = h id txn old in
    let other : txn ≢ p = λ e. ne (sym own ∙ ap (λ q. (txns q).id) e) in
    (lt, below, rw (store_other p txn t txns other) own, rw (store_other p txn t txns other) on)
  where
    still :
        (if id == (txns p).id then none else find id active) ≡ some txn
        → (id ≢ (txns p).id) × (find id active ≡ some txn)
    still e = (λ s. ground arith, ground arith)

begin-cases :
    (outcome : WriteOutcome) (m : TxnManager)
    → ((begin outcome m).1.next_id ≡ m.next_id) × ((begin outcome m).1.active ≡ m.active)
      ⊎ ((begin outcome m).1.next_id ≡ (m.next_id + 1) % 2 ^ 64)
        × ((begin outcome m).1.active ≡ put m.next_id m.next_ptr m.active)
unfolding begin log_txn new_txn
begin-cases outcome m =
    elim (Option-cases (log_txn record_begin m.next_id outcome (new_txn m).1).0) [
      | inl e ↦ rw (e, begin) (inr (refl, refl))
      | inr (f, e) ↦ rw (e, begin) (inl (refl, refl))
    ]

begin-memory :
    (outcome : WriteOutcome) (m : TxnManager)
    → ((begin outcome m).1.next_ptr ≡ m.next_ptr + 1)
      × ((begin outcome m).1.txns ≡ store m.next_ptr (active_txn m.next_id) m.txns)
unfolding begin log_txn new_txn
begin-memory outcome m =
    elim (Option-cases (log_txn record_begin m.next_id outcome (new_txn m).1).0) [
      | inl e ↦ rw (e, begin) (refl, refl)
      | inr (f, e) ↦ rw (e, begin) (refl, refl)
    ]

begin-IsManaged :
    (outcome : WriteOutcome) (m : TxnManager)
    → m.next_id + 1 < 2 ^ 64
    → IsManaged m
    → IsManaged (begin outcome m).1
unfolding IsManaged Registered
begin-IsManaged outcome m bound h =
    let (free, memory) = begin-memory outcome m in
    elim (begin-cases outcome m) [
      | inl (n, a) ↦ rw (n, a, free, memory) (new-Registered m.next_id m.next_ptr m.active m.txns h)
      | inr (n, a) ↦
          rw (n, a, free, memory) (put-Registered m.next_id m.next_ptr m.active m.txns bound h)
    ]

log_end-IsManaged :
    (record_type : RecordType) (state : TxnState) (outcome : WriteOutcome) (txn : ℕ)
    (m : TxnManager)
    → IsManaged m
    → IsManaged (log_end record_type state outcome txn m).1
unfolding log_end log_txn IsManaged Registered finish
log_end-IsManaged record_type state outcome txn m h =
    elim (Option-cases (log_txn record_type (m.txns txn).id outcome m).0) [
      | inl e ↦
          rw (e, log_end)
            (delete-Registered m.next_id m.next_ptr txn
              (record { id = (m.txns txn).id; state = state }) m.active m.txns h)
      | inr (f, e) ↦ rw (e, log_end) h
    ]

commit-IsManaged :
    (outcome : WriteOutcome) (txn : ℕ) (m : TxnManager)
    → IsManaged m
    → IsManaged (commit outcome txn m).1
unfolding commit
commit-IsManaged outcome txn m h = elim (Bool-cases (is_active (m.txns txn).state)) [
  | inl e ↦ rw (e, commit) (log_end-IsManaged record_commit txn_committed outcome txn m h)
  | inr e ↦ rw (e, commit) h
]

rollback-IsManaged :
    (outcome : WriteOutcome) (txn : ℕ) (m : TxnManager)
    → IsManaged m
    → IsManaged (rollback outcome txn m).1
unfolding rollback undo_pages IsManaged
rollback-IsManaged outcome txn m h = elim (Bool-cases (is_active (m.txns txn).state)) [
  | inr e ↦ rw (e, rollback) h
  | inl e ↦ elim (Option-cases (undo_pages (m.txns txn).id m).0) [
    | inl done ↦
        rw (e, rollback, done)
          (log_end-IsManaged record_abort txn_aborted outcome txn (undo_pages (m.txns txn).id m).1
            h)
    | inr (f, failed) ↦ rw (e, rollback, failed) h
  ]
]

Call-IsManaged : (m n : TxnManager) → Call m n → IsManaged m → IsManaged n
Call-IsManaged m n (begins outcome _ bound) h = begin-IsManaged outcome m bound h
Call-IsManaged m n (commits outcome txn _) h = commit-IsManaged outcome txn m h
Call-IsManaged m n (rolls_back outcome txn _) h = rollback-IsManaged outcome txn m h

Calls-IsManaged : (m n : TxnManager) → Calls m n → IsManaged m → IsManaged n
Calls-IsManaged m n (no_call _) h = h
Calls-IsManaged m n (and_call _ b _ calls call) h =
    Call-IsManaged b n call (Calls-IsManaged m b calls h)

-- After any calls of Begin, Commit and Rollback on a new manager, with numbers left and whatever
-- becomes of the writes to the log: each active transaction is registered under its own number,
-- the transaction that its pointer leads to is in the active state, and its number is below the
-- next one, so that Begin gives out a new one.
pub reachable-IsManaged :
    (w : Wal) (pool : BufferPool) (txns : ℕ → Txn) (m : TxnManager)
    → Calls (new_txn_manager w pool txns) m
    → IsManaged m
reachable-IsManaged w pool txns m calls =
    Calls-IsManaged (new_txn_manager w pool txns) m calls (new_txn_manager-IsManaged w pool txns)
