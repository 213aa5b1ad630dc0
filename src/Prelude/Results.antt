-- ===== src/Prelude/Results.antt =====
-- The outcome of a Go call: a value, an error value, or a run-time panic.
use mathlib.Core.Path.{◌≡◌, refl}

pub data Result {ℓ κ} (E : Type ℓ) (A : Type κ) : Type (ℓ ⊔ κ) where
  ok : A → Result E A
  err : E → Result E A
  panic : Result E A

-- An error or a panic ends the chain.
infixl 5 ◌>>=◌
abbrev pub ◌>>=◌ {ℓ κ μ} :
    {E : Type ℓ} {A : Type κ} {B : Type μ} → Result E A → (A → Result E B) → Result E B
panic >>= next_call = panic
err e >>= next_call = err e
ok a >>= next_call = next_call a

-- A chain that succeeds: so does each of its two parts.
module _ {ℓ κ μ} {E : Type ℓ} {A : Type κ} {B : Type μ} where
  pub >>=-eq-ok :
      (first : Result E A) (second : A → Result E B) {out : B}
      → (first >>= second) ≡ ok out
      → (mid : A) × (first ≡ ok mid) × (second mid ≡ ok out)
  >>=-eq-ok panic second succeeded = cc
  >>=-eq-ok (err e) second succeeded = cc
  >>=-eq-ok (ok mid) second succeeded = (mid, refl, succeeded)

pub ok-eq {ℓ κ} : {E : Type ℓ} {A : Type κ} {a b : A} → ◌≡◌ {A = Result E A} (ok a) (ok b) → a ≡ b
ok-eq h = cc
