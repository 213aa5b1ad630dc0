-- ===== src/Prelude/Slices.antt =====
-- Slices of a list that is put together of parts of known lengths.
use Prim.Native.Nat.{zero, ℕ, suc, ◌+◌, ◌≤◌}
use mathlib.Core.Path.{◌≡◌, refl, sym, ap}
use mathlib.Core.List.{List, [], ◌∷◌, ◌++◌}
use native.Mathlib.Omega.{arith}
use my_sqlight.Prelude.Lists.{length, take, drop, get_or}

module _ {ℓ} {A : Type ℓ} where
  pub take_append : (xs ys : List A) → take (length xs) (xs ++ ys) ≡ xs
  take_append [] ys = refl
  take_append (x ∷ xs) ys = ap (◌∷◌ x) (take_append xs ys)

  pub drop_append : (xs ys : List A) → drop (length xs) (xs ++ ys) ≡ ys
  drop_append [] ys = refl
  drop_append (x ∷ xs) ys = drop_append xs ys

  pub take-append_of : (n : ℕ) (xs ys : List A) → length xs ≡ n → take n (xs ++ ys) ≡ xs
  take-append_of n xs ys h = rw (sym h) (take_append xs ys)

  pub drop-append_of : (n : ℕ) (xs ys : List A) → length xs ≡ n → drop n (xs ++ ys) ≡ ys
  drop-append_of n xs ys h = rw (sym h) (drop_append xs ys)

  pub drop_past : (k : ℕ) (xs ys : List A) → drop (length xs + k) (xs ++ ys) ≡ drop k ys
  drop_past k [] ys = rw zero_add
    where
      zero_add : 0 + k ≡ k
      zero_add = omega arith
  drop_past k (x ∷ xs) ys = rw suc_add (drop_past k xs ys)
    where
      suc_add : suc (length xs) + k ≡ suc (length xs + k)
      suc_add = omega arith

  pub drop-append_past :
      (n k : ℕ) (xs ys : List A) → length xs ≡ n → drop (n + k) (xs ++ ys) ≡ drop k ys
  drop-append_past n k xs ys h = rw (sym h) (drop_past k xs ys)

  pub get_or_past :
      (k : ℕ) (d : A) (xs ys : List A) → get_or (xs ++ ys) (length xs + k) d ≡ get_or ys k d
  get_or_past k d [] ys = rw zero_add
    where
      zero_add : 0 + k ≡ k
      zero_add = omega arith
  get_or_past k d (x ∷ xs) ys = rw suc_add (get_or_past k d xs ys)
    where
      suc_add : suc (length xs) + k ≡ suc (length xs + k)
      suc_add = omega arith

  pub get_or-append_past :
      (n k : ℕ) (d : A) (xs ys : List A)
      → length xs ≡ n
      → get_or (xs ++ ys) (n + k) d ≡ get_or ys k d
  get_or-append_past n k d xs ys h = rw (sym h) (get_or_past k d xs ys)

  pub take_whole : (n : ℕ) (xs : List A) → length xs ≡ n → take n xs ≡ xs
  take_whole zero [] h = refl
  take_whole zero (x ∷ xs) h = absurd (omega arith)
  take_whole (suc n) [] h = refl
  take_whole (suc n) (x ∷ xs) h = ap (◌∷◌ x) (take_whole n xs (omega arith))

  pub take-append_le : (n : ℕ) (xs ys : List A) → n ≤ length xs → take n (xs ++ ys) ≡ take n xs
  take-append_le zero xs ys h = refl
  take-append_le (suc n) [] ys h = absurd (omega arith)
  take-append_le (suc n) (x ∷ xs) ys h = ap (◌∷◌ x) (take-append_le n xs ys (omega arith))
