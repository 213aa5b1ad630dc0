-- ===== src/Wal/Recovery/Outcome.antt =====
-- What `Recover` leaves on each page, and in the log.
use my_sqlight.Prelude.{
  ℕ, ◌≡◌, refl, ap, ◌∙◌, arith, none, some, List, [], map, length, reverse, fun_ext,
}
use my_sqlight.Bytes.{Bytes}
use my_sqlight.Catalog.Stored.{All}
use my_sqlight.Wal.Record.{Record}
use my_sqlight.Wal.Log.{Wal, open_wal, opened, lsn_after, checkpoint}
use my_sqlight.Wal.RoundTrip.{FitsRecord, logged}
use my_sqlight.Wal.Scan.{encodes, bump_all}
use my_sqlight.Wal.Append.{read_all-encodes}
use my_sqlight.Wal.Recovery.Active.{unfinished, active_after, holds-active_after}
use my_sqlight.Wal.Recovery.{
  PageWriter, RecoverOutcome, undo_pass, recover_records, recover_opened, recover,
}
use my_sqlight.Wal.Recovery.Pages.{
  PageStore, last_update, first_update_by, FitsLog, redo, undo, analysis_pass-redo,
}
use my_sqlight.Wal.Recovery.Reads.{read-redo, FitsLog-redo, Fits-redo}
use my_sqlight.Wal.Recovery.Undone.{FitsLog-reverse, undo_pages-undo, read-undo}

-- What recovery owes a page: the before-image of the first update by a transaction that the log
-- leaves unfinished; if there is none, the after-image of the last update; if there is none, what
-- was on the page.
unfoldable pub recovered_page : List Record → ℕ → Bytes → Bytes
recovered_page rs p old = elim (first_update_by (unfinished rs) p rs) [
  | some u ↦ u.before_image
  | none ↦ elim (last_update p rs) [ some u ↦ u.after_image | none ↦ old ]
]

module _ (writer : PageWriter) (store : PageStore writer) where
  open writer use {State, Failure}
  open store use {read, Fits}

  recover_records-states :
      (rs : List Record) (s : State) (w : Wal)
      → FitsLog writer store s rs
      → recover_records writer rs s w ≡ record {
        state = undo writer store (reverse rs) (active_after rs []) (redo writer store rs s);
        log = [];
        error = none;
      }
  unfolding recover_records undo_pass checkpoint
  recover_records-states rs s w h = ground (
    arith,
    analysis_pass-redo writer store rs [] s h,
    undo_pages-undo writer store (reverse rs) (active_after rs []) (redo writer store rs s)
        (FitsLog-reverse writer store _ rs (FitsLog-redo writer store rs rs s h h)),
  )

  read-recovered :
      (rs : List Record) (s : State) (p : ℕ) (d : Bytes)
      → FitsLog writer store s rs
      → Fits s p d
      → read (undo writer store (reverse rs) (active_after rs []) (redo writer store rs s)) p
        ≡ recovered_page rs p (read s p)
  unfolding recovered_page
  read-recovered rs s p d h k =
      read-undo writer store rs (active_after rs []) (redo writer store rs s) p d
        (FitsLog-redo writer store rs rs s h h) (Fits-redo writer store rs s p d h k)
      ∙ ap
          (λ member. elim (first_update_by member p rs) [
            | some u ↦ u.before_image
            | none ↦ read (redo writer store rs s) p
          ])
          (fun_ext (holds-active_after rs))
      ∙ ap
          (λ old. elim (first_update_by (unfinished rs) p rs) [
            | some u ↦ u.before_image
            | none ↦ old
          ])
          (read-redo writer store rs s p d h k)

  open_wal-encodes :
      (rs : List Record)
      → All FitsRecord rs
      → (w : Wal) × (open_wal (encodes rs) ≡ opened w) × (w.contents ≡ encodes rs)
  unfolding open_wal
  open_wal-encodes rs h = (
    record {
      contents = encodes rs;
      offset = length (encodes rs);
      next_lsn = lsn_after (map logged rs) (bump_all rs 0);
    },
    rw (
      read_all-encodes rs (record { contents = encodes rs; offset = 0; next_lsn = 0 }) h refl,
      open_wal,
    ),
    refl,
  )

  -- Recovery on the log of any written records succeeds and leaves an empty log; every page then
  -- holds what recovery owes it.
  pub recover_pages :
      (rs : List Record) (s : State) (p : ℕ) (d : Bytes)
      → All FitsRecord rs
      → FitsLog writer store s (map logged rs)
      → Fits s p d
      → (out : RecoverOutcome State Failure) × (recover writer (encodes rs) s ≡ some out)
        × (out.error ≡ none)
        × (out.log ≡ [])
        × (read out.state p ≡ recovered_page (map logged rs) p (read s p))
  unfolding recover recover_opened
  recover_pages rs s p d h fits k =
      let (w, open_lem, contents) = open_wal-encodes rs h in
      (
        _,
        rw (open_lem, recover)
            (rw (read_all-encodes rs w h contents, recover_opened)
              (ap some (recover_records-states (map logged rs) s _ fits))),
        refl,
        refl,
        read-recovered (map logged rs) s p d fits k,
      )
