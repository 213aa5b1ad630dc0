-- ===== src/Wal/Recovery/Undone.antt =====
-- What can be read of a page after the undo pass.
use my_sqlight.Prelude.{
  &&-true, subst, ◌⊎◌, ℕ, ◌≡◌, refl, sym, arith, true, false, ◌&&◌, none, some, List, [], ◌∷◌, ◌++◌,
  reverse, Bool-cases, inl, inr,
}
use mathlib.Core.List.{reverse-cons}
use my_sqlight.Bytes.{Bytes}
use my_sqlight.Wal.Record.{
  RecordType, record_begin, record_commit, record_abort, record_update, Record, is_update,
}
use my_sqlight.Wal.Recovery.Sets.{holds}
use my_sqlight.Wal.Recovery.{PageWriter, undo_pages}
use my_sqlight.Wal.Recovery.Pages.{
  PageStore, first_update_by, FitsUpdate, FitsLog, undo_step, undo, FitsUpdate-stored,
  FitsLog-stored,
}

module _ (writer : PageWriter) (store : PageStore writer) where
  open writer use {State, write_page}
  open store use {read, Fits, stored, write_page-stored, read-stored, Fits-stored}

  undo-append :
      (xs : List Record) (r : Record) (active : List ℕ) (s : State)
      → undo writer store (xs ++ (r ∷ [])) active s
        ≡ undo_step writer store r active (undo writer store xs active s)
  unfolding undo
  undo-append [] r active s = refl
  undo-append (x ∷ xs) r active s = undo-append xs r active (undo_step writer store x active s)

  -- The before-image of an update can be written.
  abbrev FitsBefore : State → Record → Type 0
  FitsBefore s r = is_update r.record_type ≡ true → Fits s r.page_id r.before_image

  FitsBefore_of :
      (t : RecordType) (r : Record) (s : State)
      → FitsUpdate writer store s t r
      → is_update t ≡ true
      → Fits s r.page_id r.before_image
  unfolding is_update
  FitsBefore_of record_update r s h e = h.1
  FitsBefore_of record_begin r s h e = cc
  FitsBefore_of record_commit r s h e = cc
  FitsBefore_of record_abort r s h e = cc

  pub undo_step-cases :
      (r : Record) (active : List ℕ) (s : State)
      → (((is_update r.record_type && holds r.txn_id active) ≡ false)
          × (undo_step writer store r active s ≡ s))
        ⊎ ((is_update r.record_type ≡ true)
            × (holds r.txn_id active ≡ true)
            × (undo_step writer store r active s ≡ stored s r.page_id r.before_image))
  unfolding undo_step
  undo_step-cases r active s =
      elim (Bool-cases (is_update r.record_type && holds r.txn_id active)) [
        | inl e ↦ let (upd, act) = &&-true _ _ e in inr (upd, act, rw e)
        | inr e ↦ inl (e, rw e)
      ]

  Fits-undo_step :
      (r : Record) (active : List ℕ) (s : State) (p : ℕ) (d : Bytes)
      → FitsUpdate writer store s r.record_type r
      → Fits s p d
      → Fits (undo_step writer store r active s) p d
  Fits-undo_step r active s p d h k = elim (undo_step-cases r active s) [
    | inl (_, e) ↦ rw e k
    | inr (upd, _, e) ↦
        rw e (Fits-stored s r.page_id p r.before_image d (FitsBefore_of r.record_type r s h upd) k)
  ]

  FitsUpdate-undo_step :
      (r : Record) (active : List ℕ) (s : State) (t : RecordType) (q : Record)
      → FitsUpdate writer store s r.record_type r
      → FitsUpdate writer store s t q
      → FitsUpdate writer store (undo_step writer store r active s) t q
  FitsUpdate-undo_step r active s t q h k = elim (undo_step-cases r active s) [
    | inl (_, e) ↦ subst (λ z. FitsUpdate writer store z t q) (sym e) k
    | inr (upd, _, e) ↦
        subst (λ z. FitsUpdate writer store z t q) (sym e)
          (FitsUpdate-stored writer store s r.page_id r.before_image t q
            (FitsBefore_of r.record_type r s h upd) k)
  ]

  FitsLog-undo_step :
      (r : Record) (active : List ℕ) (s : State) (qs : List Record)
      → FitsUpdate writer store s r.record_type r
      → FitsLog writer store s qs
      → FitsLog writer store (undo_step writer store r active s) qs
  FitsLog-undo_step r active s [] h k = tt
  FitsLog-undo_step r active s (q ∷ qs) h k =
      (FitsUpdate-undo_step r active s q.record_type q h k.0, FitsLog-undo_step r active s qs h k.1)

  -- The bounds of a page and of a record hold after the undo pass of a log that fits.
  Fits-undo :
      (xs : List Record) (active : List ℕ) (s : State) (p : ℕ) (d : Bytes)
      → FitsLog writer store s xs
      → Fits s p d
      → Fits (undo writer store xs active s) p d
  unfolding undo
  Fits-undo [] active s p d h k = k
  Fits-undo (x ∷ xs) active s p d h k =
      Fits-undo xs active _ p d (FitsLog-undo_step x active s xs h.0 h.1)
        (Fits-undo_step x active s p d h.0 k)

  FitsUpdate-undo :
      (xs : List Record) (active : List ℕ) (s : State) (t : RecordType) (q : Record)
      → FitsLog writer store s xs
      → FitsUpdate writer store s t q
      → FitsUpdate writer store (undo writer store xs active s) t q
  unfolding undo
  FitsUpdate-undo [] active s t q h k = k
  FitsUpdate-undo (x ∷ xs) active s t q h k =
      FitsUpdate-undo xs active _ t q (FitsLog-undo_step x active s xs h.0 h.1)
        (FitsUpdate-undo_step x active s t q h.0 k)

  FitsLog-append :
      (s : State) (xs ys : List Record)
      → FitsLog writer store s xs
      → FitsLog writer store s ys
      → FitsLog writer store s (xs ++ ys)
  FitsLog-append s [] ys h k = k
  FitsLog-append s (x ∷ xs) ys h k = (h.0, FitsLog-append s xs ys h.1 k)

  pub FitsLog-reverse :
      (s : State) (rs : List Record)
      → FitsLog writer store s rs
      → FitsLog writer store s (reverse rs)
  FitsLog-reverse s [] h = tt
  FitsLog-reverse s (r ∷ rs) h =
      subst (λ xs. FitsLog writer store s xs) (sym (reverse-cons r rs))
        (FitsLog-append s (reverse rs) (r ∷ []) (FitsLog-reverse s rs h.1) (h.0, tt))

  -- The undo pass without errors of the writer.
  pub undo_pages-undo :
      (xs : List Record) (active : List ℕ) (s : State)
      → FitsLog writer store s xs
      → undo_pages writer xs active s ≡ (none, undo writer store xs active s)
  unfolding undo_pages undo undo_step
  undo_pages-undo [] active s h = refl
  undo_pages-undo (x ∷ xs) active s h =
      elim (Bool-cases (is_update x.record_type && holds x.txn_id active)) [
        | inl e ↦
            let upd = (&&-true _ _ e).0 in
            let fits = FitsBefore_of x.record_type x s h.0 upd in
            ground (
              arith,
              e,
              write_page-stored s x.page_id x.before_image fits,
              undo_pages-undo xs active (stored s x.page_id x.before_image)
                  (FitsLog-stored writer store s x.page_id x.before_image xs fits h.1),
            )
        | inr e ↦ rw e (undo_pages-undo xs active s h.1)
      ]

  -- After the undo pass a page that an active transaction had updated holds the before-image of the
  -- first such update; any other page is as it was.
  pub read-undo :
      (rs : List Record) (active : List ℕ) (s : State) (p : ℕ) (d : Bytes)
      → FitsLog writer store s rs
      → Fits s p d
      → read (undo writer store (reverse rs) active s) p
        ≡ elim (first_update_by (λ id. holds id active) p rs) [
          | some u ↦ u.before_image
          | none ↦ read s p
        ]
  unfolding first_update_by
  read-undo [] active s p d h k = unfold undo in refl
  read-undo (r ∷ rs) active s p d h k =
      rw (reverse-cons r rs, undo-append (reverse rs) r active s)
        (elim (undo_step-cases r active (undo writer store (reverse rs) active s)) [
          | inl (off, e) ↦ ground (arith, e, off, read-undo rs active s p d h.1 k)
          | inr (upd, act, e) ↦ ground (
            arith,
            e,
            upd,
            act,
            read-undo rs active s p d h.1 k,
            read-stored (undo writer store (reverse rs) active s) r.page_id p r.before_image
                (FitsBefore_of r.record_type r _
                  (FitsUpdate-undo (reverse rs) active s r.record_type r (FitsLog-reverse s rs h.1)
                    h.0)
                  upd)
                d (Fits-undo (reverse rs) active s p d (FitsLog-reverse s rs h.1) k),
          )
        ])
