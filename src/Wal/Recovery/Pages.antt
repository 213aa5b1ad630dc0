-- ===== src/Wal/Recovery/Pages.antt =====
-- What the two passes leave on a page, for a writer that stores pages.
use my_sqlight.Prelude.{
  ℕ, ◌==◌, ◌≡◌, refl, arith, Bool, ◌&&◌, Option, none, some, List, [], ◌∷◌, if◌then◌else◌,
}
use my_sqlight.Bytes.{Bytes}
use my_sqlight.Catalog.Stored.{All}
use my_sqlight.Wal.Record.{
  RecordType, record_begin, record_commit, record_abort, record_update, Record, is_update,
}
use my_sqlight.Wal.Recovery.Sets.{holds}
use my_sqlight.Wal.Recovery.Active.{active_step, active_after}
use my_sqlight.Wal.Recovery.{PageWriter, analysis_step, analysis_pass}

-- A writer that stores pages: within its bounds a write succeeds, is read back, leaves every other
-- page as it was, and keeps the bounds.
pub record PageStore (writer : PageWriter) : Type 1 where
  pub read : writer.State → ℕ → Bytes
  pub Fits : writer.State → ℕ → Bytes → Type 0
  pub stored : writer.State → ℕ → Bytes → writer.State
  pub write_page-stored :
      (s : writer.State) (p : ℕ) (d : Bytes)
      → Fits s p d
      → writer.write_page s p d ≡ (stored s p d, none)
  pub read-stored :
      (s : writer.State) (p q : ℕ) (d : Bytes)
      → Fits s p d
      → (e : Bytes) → Fits s q e
      → read (stored s p d) q ≡ (if q == p then d else read s q)
  pub Fits-stored :
      (s : writer.State) (p q : ℕ) (d e : Bytes) → Fits s p d → Fits s q e → Fits (stored s p d) q e

-- The last update of a page, and the first one by a transaction in a set.
unfoldable pub last_update : ℕ → List Record → Option Record
last_update p [] = none
last_update p (r ∷ rs) = elim (last_update p rs) [
  | some u ↦ some u
  | none ↦ if is_update r.record_type && p == r.page_id then some r else none
]

unfoldable pub first_update_by : (ℕ → Bool) → ℕ → List Record → Option Record
first_update_by member p [] = none
first_update_by member p (r ∷ rs) =
    if (is_update r.record_type && member r.txn_id) && p == r.page_id
    then some r
    else first_update_by member p rs

module _ (writer : PageWriter) (store : PageStore writer) where
  open writer use {State, write_page}
  open store use {read, Fits, stored, write_page-stored, read-stored, Fits-stored}

  -- Both images of an update can be written.
  abbrev pub FitsUpdate : State → RecordType → Record → Type 0
  FitsUpdate s record_update r = Fits s r.page_id r.after_image × Fits s r.page_id r.before_image
  FitsUpdate s record_begin r = Unit
  FitsUpdate s record_commit r = Unit
  FitsUpdate s record_abort r = Unit

  abbrev pub FitsLog : State → List Record → Type 0
  FitsLog s rs = All (λ r. FitsUpdate s r.record_type r) rs

  -- The passes without errors.
  unfoldable pub redo_step : RecordType → Record → State → State
  redo_step record_update r s = stored s r.page_id r.after_image
  redo_step _ r s = s

  unfoldable pub redo : List Record → State → State
  redo [] s = s
  redo (r ∷ rs) s = redo rs (redo_step r.record_type r s)

  unfoldable pub undo_step : Record → List ℕ → State → State
  undo_step r active s =
      if is_update r.record_type && holds r.txn_id active
      then stored s r.page_id r.before_image
      else s

  unfoldable pub undo : List Record → List ℕ → State → State
  undo [] active s = s
  undo (r ∷ rs) active s = undo rs active (undo_step r active s)

  pub FitsUpdate-stored :
      (s : State) (p : ℕ) (d : Bytes) (t : RecordType) (r : Record)
      → Fits s p d
      → FitsUpdate s t r
      → FitsUpdate (stored s p d) t r
  FitsUpdate-stored s p d record_update r h (ha, hb) =
      (Fits-stored s p _ d _ h ha, Fits-stored s p _ d _ h hb)
  FitsUpdate-stored s p d record_begin r h k = tt
  FitsUpdate-stored s p d record_commit r h k = tt
  FitsUpdate-stored s p d record_abort r h k = tt

  pub FitsLog-stored :
      (s : State) (p : ℕ) (d : Bytes) (rs : List Record)
      → Fits s p d
      → FitsLog s rs
      → FitsLog (stored s p d) rs
  FitsLog-stored s p d [] h k = tt
  FitsLog-stored s p d (r ∷ rs) h (kr, krs) =
      (FitsUpdate-stored s p d r.record_type r h kr, FitsLog-stored s p d rs h krs)

  pub FitsLog-redo_step :
      (t : RecordType) (r : Record) (s : State) (rs : List Record)
      → FitsUpdate s t r
      → FitsLog s rs
      → FitsLog (redo_step t r s) rs
  unfolding redo_step
  FitsLog-redo_step record_update r s rs h k = FitsLog-stored s _ _ rs h.0 k
  FitsLog-redo_step record_begin r s rs h k = k
  FitsLog-redo_step record_commit r s rs h k = k
  FitsLog-redo_step record_abort r s rs h k = k

  analysis_step-redo_step :
      (t : RecordType) (r : Record) (active : List ℕ) (s : State)
      → FitsUpdate s t r
      → analysis_step writer t r active s ≡ (active_step t r.txn_id active, none, redo_step t r s)
  unfolding analysis_step redo_step
  analysis_step-redo_step record_update r active s h =
      rw (write_page-stored s r.page_id r.after_image h.0)
  analysis_step-redo_step record_begin r active s h = refl
  analysis_step-redo_step record_commit r active s h = refl
  analysis_step-redo_step record_abort r active s h = refl

  pub analysis_pass-redo :
      (rs : List Record) (active : List ℕ) (s : State)
      → FitsLog s rs
      → analysis_pass writer rs active s ≡ (active_after rs active, none, redo rs s)
  unfolding analysis_pass redo active_after
  analysis_pass-redo [] active s h = refl
  analysis_pass-redo (r ∷ rs) active s (hr, hrs) = ground (
    arith,
    analysis_step-redo_step r.record_type r active s hr,
    analysis_pass-redo rs (active_step r.record_type r.txn_id active) (redo_step r.record_type r s)
        (FitsLog-redo_step r.record_type r s rs hr hrs),
  )
