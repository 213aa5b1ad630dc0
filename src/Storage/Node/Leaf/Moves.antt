-- ===== src/Storage/Node/Leaf/Moves.antt =====
-- The slots of a leaf after a change: entries put in and taken out of the list.
use my_sqlight.Prelude.{
  subst, ℕ, zero, suc, ◌+◌, ◌*◌, ◌<◌, ◌≤◌, ◌≡◌, ◌∙◌, refl, ap, arith, List, [], ◌∷◌, length,
}
use my_sqlight.Bytes.{Bytes}
use my_sqlight.Files.{read_at}
use my_sqlight.Storage.Node.Leaf.{Entries}
use my_sqlight.Storage.Node.Leaf.Holds.{SlotHolds, SlotsHold}

abbrev pub insert_at {ℓ} : {A : Type ℓ} → ℕ → A → List A → List A
insert_at zero a xs = a ∷ xs
insert_at (suc i) a [] = a ∷ []
insert_at (suc i) a (x ∷ xs) = x ∷ insert_at i a xs

abbrev pub remove_at {ℓ} : {A : Type ℓ} → ℕ → List A → List A
remove_at i [] = []
remove_at zero (x ∷ xs) = xs
remove_at (suc i) (x ∷ xs) = x ∷ remove_at i xs

pub length-insert_at {ℓ} :
    {A : Type ℓ} (i : ℕ) (a : A) (xs : List A) → length (insert_at i a xs) ≡ suc (length xs)
length-insert_at zero a xs = refl
length-insert_at (suc i) a [] = refl
length-insert_at (suc i) a (x ∷ xs) = ap suc (length-insert_at i a xs)

pub length-remove_at {ℓ} :
    {A : Type ℓ} (i : ℕ) (xs : List A) → i < length xs → suc (length (remove_at i xs)) ≡ length xs
length-remove_at i [] h = absurd (omega arith)
length-remove_at zero (x ∷ xs) h = refl
length-remove_at (suc i) (x ∷ xs) h = ap suc (length-remove_at i xs (omega arith))

-- Two pages with the same bytes behind the free space of the first one.
module _ (page page' : Bytes) (free free' : ℕ) (less : free' ≤ free)
    (heap : (o n : ℕ) → free ≤ o → o + n ≤ 4096 → read_at page' o n ≡ read_at page o n) where
  -- A slot that stands at j in the first page and at k in the second.
  abbrev pub SameSlot : ℕ → ℕ → Type 0
  SameSlot j k = read_at page' (9 + k * 8) 8 ≡ read_at page (9 + j * 8) 8

  pub moved_SlotHolds :
      (j k : ℕ) (key value : Bytes)
      → SameSlot j k
      → SlotHolds page free j key value
      → SlotHolds page' free' k key value
  moved_SlotHolds j k key value same h = record {
    key_at = h.key_at;
    value_at = h.value_at;
    slot = same ∙ h.slot;
    key_low = omega (arith, h.key_low);
    key_high = h.key_high;
    value_low = omega (arith, h.value_low);
    value_high = h.value_high;
    key_bytes = heap h.key_at (length key) h.key_low h.key_high ∙ h.key_bytes;
    value_bytes = heap h.value_at (length value) h.value_low h.value_high ∙ h.value_bytes;
  }

  -- All slots from p on that are below the total stand one place further.
  raised_SlotsHold :
      (b total : ℕ) (entries : Entries)
      → ((j : ℕ) → b ≤ j → j < total → SameSlot j (suc j))
      → b + length entries ≡ total
      → SlotsHold page free b entries
      → SlotsHold page' free' (suc b) entries
  raised_SlotsHold b total [] up all h = tt
  raised_SlotsHold b total ((key, value) ∷ entries) up all (h, hs) = (
    moved_SlotHolds b (suc b) key value (up b (omega arith) (omega arith)) h,
    raised_SlotsHold (suc b) total entries (λ j low high. up j (omega arith) high) (omega arith) hs,
  )

  lowered_SlotsHold :
      (b total : ℕ) (entries : Entries)
      → ((j : ℕ) → b ≤ j → j < total → SameSlot (suc j) j)
      → suc b + length entries ≡ suc total
      → SlotsHold page free (suc b) entries
      → SlotsHold page' free' b entries
  lowered_SlotsHold b total [] down all h = tt
  lowered_SlotsHold b total ((key, value) ∷ entries) down all (h, hs) = (
    moved_SlotHolds (suc b) b key value (down b (omega arith) (omega arith)) h,
    lowered_SlotsHold (suc b) total entries (λ j low high. down j (omega arith) high) (omega arith)
        hs,
  )

  pub kept_SlotsHold :
      (b : ℕ) (entries : Entries)
      → ((j : ℕ) → j < b + length entries → SameSlot j j)
      → SlotsHold page free b entries
      → SlotsHold page' free' b entries
  kept_SlotsHold b [] stay h = tt
  kept_SlotsHold b ((key, value) ∷ entries) stay (h, hs) = (
    moved_SlotHolds b b key value (stay b (omega arith)) h,
    kept_SlotsHold (suc b) entries (λ j low. stay j (omega arith)) hs,
  )

  pub SlotsHold-insert_at :
      (b i total : ℕ) (key value : Bytes) (entries : Entries)
      → ((j : ℕ) → j < b + i → SameSlot j j)
      → ((j : ℕ) → b + i ≤ j → j < total → SameSlot j (suc j))
      → SlotHolds page' free' (b + i) key value
      → i ≤ length entries
      → b + length entries ≡ total
      → SlotsHold page free b entries
      → SlotsHold page' free' b (insert_at i (key, value) entries)
  SlotsHold-insert_at b zero total key value entries stay up new here all hs = (
    subst (λ k. SlotHolds page' free' k key value) (omega arith) new,
    raised_SlotsHold b total entries (λ j low high. up j (omega arith) high) all hs,
  )
  SlotsHold-insert_at b (suc i) total key value [] stay up new here all hs = absurd (omega arith)
  SlotsHold-insert_at b (suc i) total key value ((k, v) ∷ entries) stay up new here all (h, hs) = (
    moved_SlotHolds b b k v (stay b (omega arith)) h,
    SlotsHold-insert_at (suc b) i total key value entries (λ j low. stay j (omega arith))
        (λ j low high. up j (omega arith) high)
        (subst (λ p. SlotHolds page' free' p key value) (omega arith) new) (omega arith)
        (omega arith) hs,
  )

  pub SlotsHold-remove_at :
      (b i total : ℕ) (entries : Entries)
      → ((j : ℕ) → j < b + i → SameSlot j j)
      → ((j : ℕ) → b + i ≤ j → j < total → SameSlot (suc j) j)
      → i < length entries
      → b + length entries ≡ suc total
      → SlotsHold page free b entries
      → SlotsHold page' free' b (remove_at i entries)
  SlotsHold-remove_at b i total [] stay down here all hs = absurd (omega arith)
  SlotsHold-remove_at b zero total ((k, v) ∷ entries) stay down here all (h, hs) =
      lowered_SlotsHold b total entries (λ j low high. down j (omega arith) high) (omega arith) hs
  SlotsHold-remove_at b (suc i) total ((k, v) ∷ entries) stay down here all (h, hs) = (
    moved_SlotHolds b b k v (stay b (omega arith)) h,
    SlotsHold-remove_at (suc b) i total entries (λ j low. stay j (omega arith))
        (λ j low high. down j (omega arith) high) (omega arith) (omega arith) hs,
  )
