-- ===== src/Executor/Operators/Sort/Sorted.antt =====
-- What `sort.SliceStable` makes of a list: it is in order, and no two elements have passed each other
-- but where the second one is less.
use my_sqlight.Prelude.{
  ◌≡◌, refl, subst, Bool, true, false, if◌then◌else◌, List, [], ◌∷◌, ◌++◌, reverse, append_assoc,
  append-nil, Bool-cases, inl, inr,
}
use mathlib.Core.List.{reverse-cons}
use my_sqlight.Executor.Operators.Sort.{insert_back, sort_onto, slice_stable}

module _ {ℓ} {A : Type ℓ} where
  -- The second list is the first one after exchanges of neighbours, each of which puts first what
  -- comes first.
  pub data Reordered (comes_first : A → A → Bool) : List A → List A → Type ℓ where
    unchanged : (xs : List A) → Reordered comes_first xs xs
    behind :
        (x : A) {xs ys : List A}
        → Reordered comes_first xs ys
        → Reordered comes_first (x ∷ xs) (x ∷ ys)
    exchanged :
        (x y : A) (xs : List A)
        → comes_first y x ≡ true
        → Reordered comes_first (x ∷ y ∷ xs) (y ∷ x ∷ xs)
    in_turn :
        {xs ys zs : List A}
        → Reordered comes_first xs ys
        → Reordered comes_first ys zs
        → Reordered comes_first xs zs

  -- No element comes before the one in front of it.
  unfoldable pub InOrder : (A → A → Bool) → List A → Type 0
  InOrder comes_first [] = Unit
  InOrder comes_first (x ∷ []) = Unit
  InOrder comes_first (x ∷ y ∷ xs) = (comes_first y x ≡ false) × InOrder comes_first (y ∷ xs)

  module _ (less : A → A → Bool) where
    -- The same of a list in reverse.
    InReverse : List A → Type 0
    InReverse [] = Unit
    InReverse (x ∷ []) = Unit
    InReverse (x ∷ y ∷ xs) = (less x y ≡ false) × InReverse (y ∷ xs)

    all_behind :
        (zs : List A) {xs ys : List A} → Reordered less xs ys → Reordered less (zs ++ xs) (zs ++ ys)
    all_behind [] r = r
    all_behind (z ∷ zs) r = behind z (all_behind zs r)

    reverse-append : (y : A) (ys xs : List A) → reverse (y ∷ ys) ++ xs ≡ reverse ys ++ (y ∷ xs)
    reverse-append y ys xs = rw (reverse-cons y ys, append_assoc (reverse ys) (y ∷ []) xs) refl

    insert_back-Reordered :
        (x : A) (ys xs : List A)
        → Reordered less (reverse ys ++ (x ∷ xs)) (reverse (insert_back less x ys) ++ xs)
    unfolding insert_back
    insert_back-Reordered x [] xs = unchanged (x ∷ xs)
    insert_back-Reordered x (y ∷ ys) xs = elim (Bool-cases (less x y)) [
      | inl e ↦
          rw (e, reverse-append y ys (x ∷ xs), reverse-append y (insert_back less x ys) xs)
            (in_turn (all_behind (reverse ys) (exchanged y x xs e))
              (insert_back-Reordered x ys (y ∷ xs)))
      | inr e ↦ rw (e, reverse-append x (y ∷ ys) xs) (unchanged (reverse (y ∷ ys) ++ (x ∷ xs)))
    ]

    sort_onto-Reordered :
        (sorted xs : List A)
        → Reordered less (reverse sorted ++ xs) (reverse (sort_onto less sorted xs))
    unfolding sort_onto
    sort_onto-Reordered sorted [] = rw (append-nil (reverse sorted)) (unchanged (reverse sorted))
    sort_onto-Reordered sorted (x ∷ xs) =
        in_turn (insert_back-Reordered x sorted xs)
          (sort_onto-Reordered (insert_back less x sorted) xs)

    pub slice_stable-Reordered : (xs : List A) → Reordered less xs (slice_stable less xs)
    unfolding slice_stable
    slice_stable-Reordered xs = sort_onto-Reordered [] xs

    InReverse-InOrder :
        (y : A) (ys zs : List A)
        → InReverse (y ∷ ys)
        → InOrder less (y ∷ zs)
        → InOrder less (reverse ys ++ (y ∷ zs))
    unfolding InReverse InOrder
    InReverse-InOrder y [] zs h k = k
    InReverse-InOrder y (w ∷ ws) zs h k =
        rw (reverse-append w ws (y ∷ zs)) (InReverse-InOrder w ws (y ∷ zs) h.1 (h.0, k))

    reverse-InOrder : (xs : List A) → InReverse xs → InOrder less (reverse xs)
    unfolding InOrder
    reverse-InOrder [] h = tt
    reverse-InOrder (x ∷ xs) h = rw (reverse-cons x xs) (InReverse-InOrder x xs [] h tt)

    module _ (asym : (x y : A) → less x y ≡ true → less y x ≡ false) where
      insert_back-InReverse :
          (x : A) (ys : List A) → InReverse ys → InReverse (insert_back less x ys)
      unfolding insert_back InReverse
      insert_back-InReverse x [] h = tt
      insert_back-InReverse x (y ∷ []) h = elim (Bool-cases (less x y)) [
        | inl e ↦ rw e (asym x y e, tt)
        | inr e ↦ rw e (e, tt)
      ]
      insert_back-InReverse x (y ∷ z ∷ ys) h = elim (Bool-cases (less x y)) [
        | inr e ↦ rw e (e, h)
        | inl e ↦ elim (Bool-cases (less x z)) [
          | inr f ↦ rw (e, f) (asym x y e, (f, h.1))
          | inl f ↦
              rw (e, f)
                (
                  h.0,
                  subst (λ b. InReverse (if b then z ∷ insert_back less x ys else x ∷ z ∷ ys)) f
                      (insert_back-InReverse x (z ∷ ys) h.1),
                )
        ]
      ]

      sort_onto-InReverse :
          (sorted xs : List A) → InReverse sorted → InReverse (sort_onto less sorted xs)
      unfolding sort_onto
      sort_onto-InReverse sorted [] h = h
      sort_onto-InReverse sorted (x ∷ xs) h =
          sort_onto-InReverse (insert_back less x sorted) xs (insert_back-InReverse x sorted h)

      pub slice_stable-InOrder : (xs : List A) → InOrder less (slice_stable less xs)
      unfolding slice_stable InReverse
      slice_stable-InOrder xs =
          reverse-InOrder (sort_onto less [] xs) (sort_onto-InReverse [] xs tt)
