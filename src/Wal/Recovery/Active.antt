-- ===== src/Wal/Recovery/Active.antt =====
-- Which transactions `analysisPass` finds active, against the last control record of each.
use my_sqlight.Prelude.{
  ℕ, ◌==◌, ◌≡◌, refl, arith, Bool, true, false, Option, none, some, List, [], ◌∷◌, if◌then◌else◌,
}
use my_sqlight.Wal.Record.{
  RecordType, record_begin, record_commit, record_abort, record_update, Record,
}
use my_sqlight.Wal.Recovery.Sets.{put, delete, holds, holds-put, holds-delete}

-- What a record says of its transaction: it runs, it has ended, or nothing.
abbrev pub control_of : RecordType → Option Bool
control_of record_begin = some true
control_of record_commit = some false
control_of record_abort = some false
control_of record_update = none

-- The last that the log says of a transaction.
unfoldable pub last_control : ℕ → List Record → Option Bool
last_control id [] = none
last_control id (r ∷ rs) = elim (last_control id rs) [
  | some b ↦ some b
  | none ↦ if id == r.txn_id then control_of r.record_type else none
]

-- The transaction was begun, and neither committed nor aborted after that.
unfoldable pub unfinished : List Record → ℕ → Bool
unfinished rs id = elim (last_control id rs) [ some b ↦ b | none ↦ false ]

-- The set of `analysisPass` alone.
abbrev pub active_step : RecordType → ℕ → List ℕ → List ℕ
active_step record_begin id active = put id active
active_step record_commit id active = delete id active
active_step record_abort id active = delete id active
active_step record_update id active = active

unfoldable pub active_after : List Record → List ℕ → List ℕ
active_after [] active = active
active_after (r ∷ rs) active = active_after rs (active_step r.record_type r.txn_id active)

holds-active_step :
    (t : RecordType) (id j : ℕ) (active : List ℕ)
    → holds j (active_step t id active)
      ≡ elim (if j == id then control_of t else none) [ some b ↦ b | none ↦ holds j active ]
holds-active_step record_begin id j active = ground (arith, holds-put j id active)
holds-active_step record_commit id j active = ground (arith, holds-delete j id active)
holds-active_step record_abort id j active = ground (arith, holds-delete j id active)
holds-active_step record_update id j active = ground arith

holds-active_after_from :
    (rs : List Record) (j : ℕ) (active : List ℕ)
    → holds j (active_after rs active)
      ≡ elim (last_control j rs) [ some b ↦ b | none ↦ holds j active ]
unfolding active_after last_control
holds-active_after_from [] j active = refl
holds-active_after_from (r ∷ rs) j active = ground (
  arith,
  holds-active_after_from rs j (active_step r.record_type r.txn_id active),
  holds-active_step r.record_type r.txn_id j active,
)

pub holds-active_after : (rs : List Record) (j : ℕ) → holds j (active_after rs []) ≡ unfinished rs j
unfolding unfinished holds
holds-active_after rs j = holds-active_after_from rs j []
