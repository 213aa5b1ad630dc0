-- ===== src/Storage/Tree/Search/Correct.antt =====
-- The search in a leaf whose keys ascend.
use my_sqlight.Prelude.{
  ℕ, zero, suc, ◌+◌, ◌-◌, ◌*◌, ◌<◌, ◌≤◌, ◌≡◌, ◌∙◌, refl, sym, ap, arith, ltb, ltb-false, ltb→lt,
  if◌then◌else◌, true, false, Bool-cases, inl, inr, some, [], ◌∷◌, length, ok,
}
use my_sqlight.Bytes.{Bytes, bytes_ltb}
use my_sqlight.Catalog.Stored.{All}
use my_sqlight.Storage.Node.Leaf.{Entries, leaf_key}
use my_sqlight.Storage.Node.Leaf.Holds.{
  LeafHolds, SlotsHold, leaf_key-SlotHolds, key_count-LeafHolds,
}
use my_sqlight.Storage.Tree.Search.{
  goes_right, key_at, go_on, middle, search_keys, search_counted, binary_search_keys,
}

bytes_ltb_trans :
    (a b c : Bytes) → bytes_ltb a b ≡ true → bytes_ltb b c ≡ true → bytes_ltb a c ≡ true
unfolding bytes_ltb
bytes_ltb_trans a [] c h k = cc
bytes_ltb_trans a (y ∷ b) [] h k = cc
bytes_ltb_trans [] (y ∷ b) (z ∷ c) h k = refl
bytes_ltb_trans (x ∷ a) (y ∷ b) (z ∷ c) h k = ground (arith, bytes_ltb_trans a b c)

-- The keys of the entries ascend.
abbrev pub Ascends : Entries → Type 0
Ascends [] = Unit
Ascends ((key, value) ∷ entries) = All (λ e. bytes_ltb key e.0 ≡ true) entries × Ascends entries

-- How many of the entries have a key below this one.
unfoldable pub count_below : Bytes → Entries → ℕ
count_below key [] = 0
count_below key ((k, value) ∷ entries) =
    let rest = count_below key entries in if bytes_ltb k key then suc rest else rest

abbrev key_of : Entries → ℕ → Bytes
key_of [] i = []
key_of ((key, value) ∷ entries) zero = key
key_of ((key, value) ∷ entries) (suc i) = key_of entries i

-- Behind a key that is not below, there is none.
count_below_none :
    (k key : Bytes) (entries : Entries)
    → bytes_ltb k key ≡ false
    → All (λ e. bytes_ltb k e.0 ≡ true) entries
    → count_below key entries ≡ 0
unfolding count_below
count_below_none k key [] h all = refl
count_below_none k key ((j, value) ∷ entries) h (above, all) =
    ground (arith, bytes_ltb_trans k j key above, count_below_none k key entries h all)

below_none :
    (k key : Bytes) (entries : Entries) (i : ℕ)
    → i < length entries
    → bytes_ltb k key ≡ false
    → All (λ e. bytes_ltb k e.0 ≡ true) entries
    → bytes_ltb (key_of entries i) key ≡ false
below_none k key [] i low h all = absurd (omega arith)
below_none k key ((j, value) ∷ entries) zero low h (above, all) =
    ground (arith, bytes_ltb_trans k j key above)
below_none k key ((j, value) ∷ entries) (suc i) low h (above, all) =
    below_none k key entries i (omega arith) h all

ltb_zero : (i : ℕ) → ltb i 0 ≡ false
ltb_zero i = ground arith

ltb-suc : (i n : ℕ) → ltb i n ≡ ltb (suc i) (suc n)
ltb-suc i n = ground arith

-- The keys below are those in front.
key_of-count_below :
    (key : Bytes) (entries : Entries) (i : ℕ)
    → Ascends entries
    → i < length entries
    → bytes_ltb (key_of entries i) key ≡ ltb i (count_below key entries)
unfolding count_below
key_of-count_below key [] i up low = absurd (omega arith)
key_of-count_below key ((k, value) ∷ entries) zero (all, up) low =
    ground (arith, count_below_none k key entries)
key_of-count_below key ((k, value) ∷ entries) (suc i) (all, up) low =
    elim (Bool-cases (bytes_ltb k key)) [
      | inl e ↦
          rw e (
            key_of-count_below key entries i up (omega arith) ∙ ltb-suc i (count_below key entries))
      | inr e ↦
          rw (e, count_below_none k key entries e all)
            (below_none k key entries i (omega arith) e all ∙ sym (ltb_zero (suc i)))
    ]

leaf_key-SlotsHold :
    (page : Bytes) (free b i : ℕ) (entries : Entries)
    → length page ≡ 4096
    → 9 + (b + length entries) * 8 ≤ 4096
    → i < length entries
    → SlotsHold page free b entries
    → leaf_key page (b + i) ≡ ok (key_of entries i)
leaf_key-SlotsHold page free b i [] size inside low h = absurd (omega arith)
leaf_key-SlotsHold page free b zero ((key, value) ∷ entries) size inside low (h, hs) =
    ap (leaf_key page) here ∙ leaf_key-SlotHolds page free b key value size (omega arith) h
  where
    here : b + 0 ≡ b
    here = omega arith
leaf_key-SlotsHold page free b (suc i) ((key, value) ∷ entries) size inside low (h, hs) =
    ap (leaf_key page) next
    ∙ leaf_key-SlotsHold page free (suc b) i entries size (omega arith) (omega arith) hs
  where
    next : b + suc i ≡ suc b + i
    next = omega arith

same_end : (low end c : ℕ) → low ≤ c → c ≤ end → end ≤ low → low ≡ c
same_end low end c h k e = omega arith

middle_inside : (low end : ℕ) → low < end → (low ≤ middle low end) × (middle low end < end)
middle_inside low end h = (omega arith, omega arith)

count_below_bounded : (key : Bytes) (entries : Entries) → count_below key entries ≤ length entries
unfolding count_below
count_below_bounded key [] = omega arith
count_below_bounded key ((k, value) ∷ entries) = ground (arith, count_below_bounded key entries)

module _ (page key : Bytes) (keys : ℕ → Bytes) (n c : ℕ)
    (reads : (i : ℕ) → i < n → leaf_key page i ≡ ok (keys i))
    (below : (i : ℕ) → i < n → bytes_ltb (keys i) key ≡ ltb i c) where
  -- The number stays between the bounds.
  search_keys-finds :
      (fuel low end : ℕ)
      → low ≤ c
      → c ≤ end
      → end ≤ n
      → end - low < fuel
      → search_keys fuel true page key low end ≡ some (ok c)
  unfolding search_keys key_at go_on goes_right
  search_keys-finds zero low end h k inside enough = absurd (omega arith)
  search_keys-finds (suc fuel) low end h k inside enough = elim (Bool-cases (ltb low end)) [
    | inr e ↦ rw e (ap (λ x. some (ok x)) (same_end low end c h k (ltb-false low end e)))
    | inl e ↦
        let (from, to) = middle_inside low end (ltb→lt low end e) in
        let found = reads (middle low end) (omega arith) in
        let side = below (middle low end) (omega arith) in
        elim (Bool-cases (ltb (middle low end) c)) [
          | inl r ↦
              let after = ltb→lt (middle low end) c r in
              rw (e, found, side, r)
                (search_keys-finds fuel (middle low end + 1) end (omega arith) k inside
                  (omega arith))
          | inr l ↦
              let before = ltb-false (middle low end) c l in
              rw (e, found, side, l)
                (search_keys-finds fuel low (middle low end) h before (omega arith) (omega arith))
        ]
  ]

-- binarySearchKeys in a leaf that holds entries with ascending keys returns, without running out
-- of rounds and without a panic, the number of the keys that are below the one searched for.
pub binary_search_keys_counts :
    (page key : Bytes) (entries : Entries)
    → LeafHolds page entries
    → Ascends entries
    → binary_search_keys page key true ≡ some (ok (count_below key entries))
unfolding binary_search_keys search_counted
binary_search_keys_counts page key entries h up = rw (key_count-LeafHolds page entries h) (
    search_keys-finds page key (key_of entries) (length entries) (count_below key entries)
      (λ i low.
        first i
        ∙ leaf_key-SlotsHold page h.free 0 i entries h.size (omega (arith, h.room, h.top)) low
            h.slots)
      (λ i low. key_of-count_below key entries i up low) (suc (length entries)) 0 (length entries)
      (omega arith) (count_below_bounded key entries) (omega arith) (omega arith))
  where
    first : (i : ℕ) → leaf_key page i ≡ leaf_key page (0 + i)
    first i = let same : i ≡ 0 + i = omega arith in ap (leaf_key page) same
