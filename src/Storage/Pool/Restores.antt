-- ===== src/Storage/Pool/Restores.antt =====
-- What `RollbackTxn` does to the pages in the cache.
use my_sqlight.Prelude.{
  take_whole, ap₂, ◌≤◌, zero, suc, append-nil, ℕ, ◌==◌, ◌≡◌, ◌||◌, ◌&&◌, ◌∙◌, refl, sym, arith,
  length, drop, if◌then◌else◌, ◌++◌, [], ◌∷◌, Bool, true, false, Option, some, none, Option-cases,
  inl, inr,
}
use my_sqlight.Bytes.{Bytes}
use my_sqlight.Maps.{Map, nat_eq, find, find-put, find-delete}
use my_sqlight.Storage.Pager.{write_page}
use my_sqlight.Storage.Pool.{write_page, Page, BufferPool}
use my_sqlight.Storage.Pool.Rollback.{
  copied, restored, drop_images, restore_image, restore_page, restore_pages, rollback_txn,
}

-- An entry of the page and the transaction is in the list.
unfoldable dirtied : ℕ → ℕ → Map ℕ ℕ → Bool
dirtied q txn [] = false
dirtied q txn ((id, owner) ∷ entries) = (q == id && owner == txn) || dirtied q txn entries

-- The frame of a page with this image before.
abbrev frame_after : Option Bytes → Option Page → Option Page
frame_after none frame = frame
frame_after (some image) none = none
frame_after (some image) (some page) = some (restored image page)

RestoredAs : ℕ → Bool → BufferPool → BufferPool → Type 0
RestoredAs q here bp after =
    (find q after.frames ≡ (
      if here then frame_after (find q bp.before_images) (find q bp.frames) else find q bp.frames))
    × (find q after.before_images ≡ (if here then none else find q bp.before_images))

module _ (q : ℕ) where
  restore_image-RestoredAs :
      (id : ℕ) (image : Bytes) (bp : BufferPool)
      → find id bp.before_images ≡ some image
      → (restore_image id image bp).0 ≡ none
      → RestoredAs q (q == id) bp (restore_image id image bp).1
  unfolding restore_image drop_images RestoredAs write_page
  restore_image-RestoredAs id image bp h e = elim (Option-cases (find id bp.frames)) [
    | inl absent ↦ (
      ground (arith, absent, h, find-delete q id bp.before_images),
      ground (arith, absent, h, find-delete q id bp.before_images),
    )
    | inr (page, found) ↦
        rw (found, restore_image)
          (
            ground (arith, found, h, find-put q id (restored image page) bp.frames),
            ground (arith, found, h, find-delete q id bp.before_images),
          )
  ]

  restore_page-RestoredAs :
      (id : ℕ) (bp : BufferPool)
      → (restore_page id bp).0 ≡ none
      → RestoredAs q (q == id) bp (restore_page id bp).1
  unfolding restore_page RestoredAs
  restore_page-RestoredAs id bp e = elim (Option-cases (find id bp.before_images)) [
    | inl absent ↦ rw (absent, restore_page) (ground (arith, absent), ground (arith, absent))
    | inr (image, found) ↦ (
      ground (arith, found, restore_image-RestoredAs id image bp found),
      ground (arith, found, restore_image-RestoredAs id image bp found),
    )
  ]

  restore_pages-RestoredAs :
      (txn : ℕ) (entries : Map ℕ ℕ) (bp : BufferPool)
      → (restore_pages txn entries bp).0 ≡ none
      → RestoredAs q (dirtied q txn entries) bp (restore_pages txn entries bp).1
  unfolding restore_pages RestoredAs dirtied
  restore_pages-RestoredAs txn [] bp e = (refl, refl)
  restore_pages-RestoredAs txn ((id, owner) ∷ entries) bp e = (
    ground (
      arith,
      restore_page-RestoredAs id bp,
      restore_pages-RestoredAs txn entries bp,
      restore_pages-RestoredAs txn entries (restore_page id bp).1,
    ),
    ground (
      arith,
      restore_page-RestoredAs id bp,
      restore_pages-RestoredAs txn entries bp,
      restore_pages-RestoredAs txn entries (restore_page id bp).1,
    ),
  )

-- A page that the pool records as dirtied by the transaction is in the list.
dirtied-find :
    (q txn : ℕ) (entries : Map ℕ ℕ) → find q entries ≡ some txn → dirtied q txn entries ≡ true
unfolding dirtied find
dirtied-find q txn [] h = cc
dirtied-find q txn ((id, owner) ∷ entries) h = ground (arith, dirtied-find q txn entries)

no_cons : (n : ℕ) → ¬ (suc n ≤ 0)
no_cons n h = omega arith

drop_past : (n : ℕ) (xs : Bytes) → length xs ≤ n → drop n xs ≡ []
drop_past zero [] h = refl
drop_past (suc n) [] h = refl
drop_past zero (x ∷ xs) h = absurd (no_cons (length xs) h)
drop_past (suc n) (x ∷ xs) h = drop_past n xs (omega arith)

copied_all : (data_ image : Bytes) → length data_ ≡ length image → copied data_ image ≡ image
unfolding copied
copied_all data_ image h =
    ap₂ ◌++◌ (take_whole (length data_) image (sym h))
      (drop_past (length image) data_ (omega arith))
    ∙ append-nil image

-- RollbackTxn, where it succeeds, puts back each page in the cache that the pool records as dirtied
-- by the transaction and whose before-image, of the page's length, it holds: the page has the bytes
-- of the before-image, is clean again and pinned as often as before, and the before-image is gone.
-- (UnpinPage records the transaction that first made the page dirty, so not a later one that changed
-- it.)
pub rollback_txn_restores :
    (q txn : ℕ) (image : Bytes) (page : Page) (bp : BufferPool)
    → find q bp.dirty_txn ≡ some txn
    → find q bp.before_images ≡ some image
    → find q bp.frames ≡ some page
    → length page.contents ≡ length image
    → (rollback_txn txn bp).0 ≡ none
    → (find q (rollback_txn txn bp).1.frames
        ≡ some (record page { contents = image; dirty = false }))
      × (find q (rollback_txn txn bp).1.before_images ≡ none)
unfolding rollback_txn RestoredAs restored
rollback_txn_restores q txn image page bp owned before cached same done =
    let here = dirtied-find q txn bp.dirty_txn owned in
    let (frame, gone) = restore_pages-RestoredAs q txn bp.dirty_txn bp done in
    (
      frame ∙ rw (here, before, cached, restored, copied_all page.contents image same) refl,
      gone ∙ rw here refl,
    )
