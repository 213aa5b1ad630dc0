-- ===== src/Wal/Recovery/Reads.antt =====
-- What can be read of a page after the redo pass.
use my_sqlight.Prelude.{ℕ, ◌==◌, ◌≡◌, refl, arith, ◌&&◌, none, some, List, [], ◌∷◌, if◌then◌else◌}
use my_sqlight.Bytes.{Bytes}
use my_sqlight.Wal.Record.{
  RecordType, record_begin, record_commit, record_abort, record_update, Record, is_update,
}
use my_sqlight.Wal.Recovery.{PageWriter}
use my_sqlight.Wal.Recovery.Pages.{
  PageStore, last_update, FitsUpdate, FitsLog, redo_step, redo, FitsLog-redo_step,
}

module _ (writer : PageWriter) (store : PageStore writer) where
  open writer use {State}
  open store use {read, Fits, read-stored, Fits-stored}

  read-redo_step :
      (t : RecordType) (r : Record) (s : State) (p : ℕ) (d : Bytes)
      → FitsUpdate writer store s t r
      → Fits s p d
      → read (redo_step writer store t r s) p
        ≡ (if is_update t && p == r.page_id then r.after_image else read s p)
  unfolding redo_step is_update
  read-redo_step record_update r s p d h k = read-stored s r.page_id p r.after_image h.0 d k
  read-redo_step record_begin r s p d h k = refl
  read-redo_step record_commit r s p d h k = refl
  read-redo_step record_abort r s p d h k = refl

  Fits-redo_step :
      (t : RecordType) (r : Record) (s : State) (p : ℕ) (d : Bytes)
      → FitsUpdate writer store s t r
      → Fits s p d
      → Fits (redo_step writer store t r s) p d
  unfolding redo_step
  Fits-redo_step record_update r s p d h k = Fits-stored s r.page_id p r.after_image d h.0 k
  Fits-redo_step record_begin r s p d h k = k
  Fits-redo_step record_commit r s p d h k = k
  Fits-redo_step record_abort r s p d h k = k

  pub Fits-redo :
      (rs : List Record) (s : State) (p : ℕ) (d : Bytes)
      → FitsLog writer store s rs
      → Fits s p d
      → Fits (redo writer store rs s) p d
  unfolding redo
  Fits-redo [] s p d h k = k
  Fits-redo (r ∷ rs) s p d h k =
      Fits-redo rs _ p d (FitsLog-redo_step writer store r.record_type r s rs h.0 h.1)
        (Fits-redo_step r.record_type r s p d h.0 k)

  pub FitsLog-redo :
      (rs ps : List Record) (s : State)
      → FitsLog writer store s rs
      → FitsLog writer store s ps
      → FitsLog writer store (redo writer store rs s) ps
  unfolding redo
  FitsLog-redo [] ps s h k = k
  FitsLog-redo (r ∷ rs) ps s h k =
      FitsLog-redo rs ps _ (FitsLog-redo_step writer store r.record_type r s rs h.0 h.1)
        (FitsLog-redo_step writer store r.record_type r s ps h.0 k)

  -- After the redo pass a page holds the after-image of its last update.
  pub read-redo :
      (rs : List Record) (s : State) (p : ℕ) (d : Bytes)
      → FitsLog writer store s rs
      → Fits s p d
      → read (redo writer store rs s) p
        ≡ elim (last_update p rs) [ some u ↦ u.after_image | none ↦ read s p ]
  unfolding redo last_update
  read-redo [] s p d h k = refl
  read-redo (r ∷ rs) s p d h k = ground (
    arith,
    read-redo rs (redo_step writer store r.record_type r s) p d
        (FitsLog-redo_step writer store r.record_type r s rs h.0 h.1)
        (Fits-redo_step r.record_type r s p d h.0 k),
    read-redo_step r.record_type r s p d h.0 k,
  )
