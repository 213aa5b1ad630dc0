-- ===== src/Maps.antt =====
-- Go's maps as association lists, over keys with a Boolean equality. The order of the entries
-- stands for the order in which a `range` visits them.
use my_sqlight.Prelude.{
  ap₂, ℕ, ◌==◌, ==_iff, ◌≡◌, ◌↔◌, refl, arith, Bool, true, false, ◌&&◌, &&-true, Option, none, some,
  List, [], ◌∷◌, if◌then◌else◌,
}

pub record Key {ℓ} (A : Type ℓ) : Type ℓ where
  pub same : A → A → Bool
  pub same_iff : (a b : A) → (same a b ≡ true) ↔ (a ≡ b)

abbrev pub nat_eq_test : ℕ → ℕ → Bool
nat_eq_test a b = a == b

pub nat_eq_iff : (a b : ℕ) → (nat_eq_test a b ≡ true) ↔ (a ≡ b)
nat_eq_iff a b = ==_iff a b

instance abbrev pub nat_eq : Key ℕ
nat_eq = record { same = nat_eq_test; same_iff = nat_eq_iff }

-- Equality of Go strings: of their bytes.
unfoldable pub bytes_beq : List ℕ → List ℕ → Bool
bytes_beq [] [] = true
bytes_beq [] (b ∷ bs) = false
bytes_beq (a ∷ as₁) [] = false
bytes_beq (a ∷ as₁) (b ∷ bs) = a == b && bytes_beq as₁ bs

bytes_beq-eq : (a b : List ℕ) → bytes_beq a b ≡ true → a ≡ b
unfolding bytes_beq
bytes_beq-eq [] [] h = refl
bytes_beq-eq [] (b ∷ bs) h = cc
bytes_beq-eq (a ∷ as₁) [] h = cc
bytes_beq-eq (a ∷ as₁) (b ∷ bs) h =
    let (head, rest) = &&-true (a == b) (bytes_beq as₁ bs) h in
    ap₂ ◌∷◌ ((==_iff a b).0 head) (bytes_beq-eq as₁ bs rest)

bytes_beq_self : (a : List ℕ) → bytes_beq a a ≡ true
unfolding bytes_beq
bytes_beq_self [] = refl
bytes_beq_self (a ∷ as₁) = rw ((==_iff a a).1 refl, bytes_beq_self as₁)

pub bytes_eq_iff : (a b : List ℕ) → (bytes_beq a b ≡ true) ↔ (a ≡ b)
bytes_eq_iff a b = (bytes_beq-eq a b, λ e. rw e (bytes_beq_self b))

instance abbrev pub bytes_eq : Key (List ℕ)
bytes_eq = record { same = bytes_beq; same_iff = bytes_eq_iff }

abbrev pub Map {ℓ κ} : Type ℓ → Type κ → Type (ℓ ⊔ κ)
Map K V = List (K × V)

module _ {ℓ κ} {K : Type ℓ} {V : Type κ} ⦃e : Key K⦄ where
  -- `v, ok := m[k]`
  unfoldable pub find : K → Map K V → Option V
  find k [] = none
  find k ((j, v) ∷ m) = if e.same k j then some v else find k m

  -- `m[k] = v`
  unfoldable pub put : K → V → Map K V → Map K V
  put k v [] = (k, v) ∷ []
  put k v ((j, w) ∷ m) = if e.same k j then (k, v) ∷ m else (j, w) ∷ put k v m

  -- `delete(m, k)`
  unfoldable pub delete : K → Map K V → Map K V
  delete k [] = []
  delete k ((j, w) ∷ m) = if e.same k j then delete k m else (j, w) ∷ delete k m

  pub find-put :
      (j k : K) (v : V) (m : Map K V)
      → find j (put k v m) ≡ (if e.same j k then some v else find j m)
  unfolding find put
  find-put j k v [] = refl
  find-put j k v ((i, w) ∷ m) =
      ground (arith, e.same_iff j k, e.same_iff k i, e.same_iff j i, find-put j k v m)

  pub find-delete :
      (j k : K) (m : Map K V) → find j (delete k m) ≡ (if e.same j k then none else find j m)
  unfolding find delete
  find-delete j k [] = ground arith
  find-delete j k ((i, w) ∷ m) =
      ground (arith, e.same_iff j k, e.same_iff k i, e.same_iff j i, find-delete j k m)

  pub find-put_self : (k : K) (v : V) (m : Map K V) → find k (put k v m) ≡ some v
  find-put_self k v m = rw (find-put k k v m, (e.same_iff k k).1 refl)
