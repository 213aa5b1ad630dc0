-- ===== src/Storage/Pager/History.antt =====
-- Every database file that calls of the pager lead to, in any order.
use my_sqlight.Prelude.{
  Result, ◌^◌, arith, ◌∙◌, ◌+◌, length, sym, ◌≢◌, >>=-eq-ok, subst, ap, ◌<◌, ◌≡◌, List, ℕ, ok, [],
  ◌∷◌,
}
use my_sqlight.Bytes.{Bytes}
use my_sqlight.Catalog.Stored.{All}
use my_sqlight.Storage.Pager.{
  PagerError, Pager, page_bytes, open_pager, write_page, allocate_page, free_page,
  set_catalog_root_page_id,
}
use my_sqlight.Storage.Pager.Layout.{IsSound}
use my_sqlight.Storage.Pager.Access.{write_page_sound, set_root_outcome}
use my_sqlight.Storage.Pager.Reuse.{reuse_page_outcome}
use my_sqlight.Storage.Pager.Free.{free_page_outcome}
use my_sqlight.Storage.Pager.Extend.{extend_file_outcome}
use my_sqlight.Storage.Pager.Create.{open_pager_new}
use my_sqlight.Storage.Pager.Reopen.{open_pager_sound}

-- One successful call, with the free pages before and after it. The caller neither writes nor frees
-- the header or a free page, a new page is added only while the page count still fits its 32 bits
-- after it, and a root's number is a uint32.
pub data PagerStep (p : Pager) (free : List ℕ) : Pager → List ℕ → Type 0 where
  writes :
      (id : ℕ) (bs : Bytes) {p' : Pager}
      → 0 < id
      → All (λ i. i ≢ id) free
      → write_page p id bs ≡ ok p'
      → PagerStep p free p' free
  frees :
      (id : ℕ) {p' : Pager}
      → 0 < id
      → All (λ i. i ≢ id) free
      → free_page p id ≡ ok p'
      → PagerStep p free p' (id ∷ free)
  reuses :
      {id : ℕ} {others : List ℕ} {p' : Pager}
      → free ≡ id ∷ others
      → allocate_page p ≡ ok (id, p')
      → PagerStep p free p' others
  extends :
      {p' : Pager}
      → free ≡ []
      → p.page_count + 1 < 2 ^ 32
      → allocate_page p ≡ ok (p.page_count, p')
      → PagerStep p free p' []
  roots : (id : ℕ) → id < 2 ^ 32 → PagerStep p free (set_catalog_root_page_id p id) free
  reopens : {p' : Pager} → open_pager p.pages ≡ ok p' → PagerStep p free p' free

pub data Reached : Pager → List ℕ → Type 0 where
  created : {p : Pager} → open_pager [] ≡ ok p → Reached p []
  step :
      {p p' : Pager} {free free' : List ℕ}
      → Reached p free
      → PagerStep p free p' free'
      → Reached p' free'

ok_inj : {A : Type 0} {a b : A} → ◌≡◌ {A = Result PagerError A} (ok a) (ok b) → a ≡ b
ok_inj e = cc

pair_inj : {A B : Type 0} {a a' : A} {b b' : B} → ◌≡◌ {A = A × B} (a, b) (a', b') → b ≡ b'
pair_inj e = ap (λ x. x.1) e

-- A successful write was one of a page's bytes to a page of the file.
write_page-eq-ok :
    (p : Pager) (id : ℕ) (bs : Bytes) {p' : Pager}
    → write_page p id bs ≡ ok p'
    → (id < p.page_count) × (length bs ≡ page_bytes)
unfolding write_page
write_page-eq-ok p id bs e = ground arith

free_page-eq-ok : (p : Pager) (id : ℕ) {p' : Pager} → free_page p id ≡ ok p' → id < p.page_count
unfolding free_page
free_page-eq-ok p id e =
    let (linked, done, _) = >>=-eq-ok (write_page p id _) _ e in (write_page-eq-ok p id _ done).0

PagerStep-IsSound :
    {p p' : Pager} {free free' : List ℕ}
    → PagerStep p free p' free'
    → IsSound p free
    → IsSound p' free'
PagerStep-IsSound {p} {p'} {free} (writes id bs positive used e) h =
    let (lt, whole) = write_page-eq-ok p id bs e in
    let (made, done, sound, _, _) = write_page_sound p free h id id bs positive lt whole used lt in
    subst (λ z. IsSound z free) (ok_inj (sym done ∙ e)) sound
PagerStep-IsSound {p} {p'} {free} (frees id positive used e) h =
    let (made, done, sound, _) =
      free_page_outcome p free h id positive (free_page-eq-ok p id e) used in
    subst (λ z. IsSound z (id ∷ free)) (ok_inj (sym done ∙ e)) sound
PagerStep-IsSound {p} {p'} {free} {free'} (reuses {id} has e) h =
    let (made, done, sound, _, _) = reuse_page_outcome p free h id free' has in
    subst (λ z. IsSound z free') (pair_inj (ok_inj (sym done ∙ e))) sound
PagerStep-IsSound {p} {p'} {free} (extends has fits e) h =
    let (made, done, sound, _, _, _) = extend_file_outcome p free h has fits in
    subst (λ z. IsSound z []) (pair_inj (ok_inj (sym done ∙ e))) sound
PagerStep-IsSound {p} {p'} {free} (roots id fits) h = (set_root_outcome p free h id fits).0
PagerStep-IsSound {p} {p'} {free} (reopens e) h =
    subst (λ z. IsSound z free) (ok_inj (sym (open_pager_sound p free h) ∙ e)) h

pub Reached-IsSound : {p : Pager} {free : List ℕ} → Reached p free → IsSound p free
Reached-IsSound (created e) =
    let (made, done, sound, _) = open_pager_new in
    subst (λ z. IsSound z []) (ok_inj (sym done ∙ e)) sound
Reached-IsSound (step r s) = PagerStep-IsSound s (Reached-IsSound r)

-- Whatever calls of the pager succeeded, where the caller neither wrote nor freed the header or a
-- free page, a new page was added to the file only while the page count plus one was below 2^32, and
-- a catalog root was below 2^32 (a uint32): the file is sound (all pages in the file, header equal to
-- the fields in memory, free list linked from its head), and opening it again succeeds and gives the
-- pager that is in memory.
pub open_pager-Reached :
    (p : Pager) (free : List ℕ) → Reached p free → IsSound p free × (open_pager p.pages ≡ ok p)
open_pager-Reached p free r = (Reached-IsSound r, open_pager_sound p free (Reached-IsSound r))
