-- ===== src/Wal/Recovery/Sets.antt =====
-- The map from transaction numbers to `true` that recovery keeps: a list without repetitions.
use my_sqlight.Prelude.{ap, ℕ, ◌==◌, ◌≡◌, arith, Bool, false, ◌||◌, List, [], ◌∷◌, if◌then◌else◌}

-- `_, exists := set[id]`
unfoldable pub holds : ℕ → List ℕ → Bool
holds id [] = false
holds id (x ∷ xs) = id == x || holds id xs

-- `delete(set, id)`
unfoldable pub delete : ℕ → List ℕ → List ℕ
delete id [] = []
delete id (x ∷ xs) = if id == x then delete id xs else x ∷ delete id xs

-- `set[id] = true`
unfoldable pub put : ℕ → List ℕ → List ℕ
put id xs = if holds id xs then xs else id ∷ xs

holds_same : (j id : ℕ) (xs : List ℕ) → j ≡ id → holds j xs ≡ holds id xs
holds_same j id xs e = ap (λ (k : ℕ). holds k xs) e

pub holds-put : (j id : ℕ) (xs : List ℕ) → holds j (put id xs) ≡ (j == id || holds j xs)
unfolding put holds
holds-put j id xs = ground (arith, holds_same j id xs)

pub holds-delete :
    (j id : ℕ) (xs : List ℕ) → holds j (delete id xs) ≡ (if j == id then false else holds j xs)
unfolding delete holds
holds-delete j id [] = ground arith
holds-delete j id (x ∷ xs) = ground (arith, holds-delete j id xs)
