-- ===== src/Executor/Row/Bitmap.antt =====
-- The null bitmap: `setBit` and `checkBit` of executor/row.go.
use my_sqlight.Prelude.{
  &&-true, ℕ, zero, suc, ◌+◌, ◌*◌, ◌/◌, ◌%◌, ◌^◌, ◌<◌, ◌≡◌, refl, arith, Bool, true, false, ◌&&◌,
  ◌||◌, not, bit_and, bit_or, bit_xor, ◌==◌, if◌then◌else◌, [], ◌∷◌, length, get_elem?, get_or, set,
  length-set, replicate, ltb, ltb→lt, Result, ok, panic, none, some,
}
use my_sqlight.Bytes.{Bytes, IsByte}
use my_sqlight.Catalog.Stored.{All}

module _ {E : Type 0} where
  -- `bitmap[i/8] |= 1 << (i%8)`, or `&^=` to clear.
  unfoldable pub set_bit : Bytes → ℕ → Bool → Result E Bytes
  set_bit bitmap i on = elim (get_elem? bitmap (i / 8)) [
    | none ↦ panic
    | some old ↦
        let mask = 2 ^ (i % 8) in
        ok (set bitmap (i / 8) (if on then bit_or old mask else bit_and old (bit_xor 0xff mask)))
  ]

  -- `(bitmap[i/8]>>(i%8))&1 == 1`
  unfoldable pub check_bit : Bytes → ℕ → Result E Bool
  check_bit bitmap i = elim (get_elem? bitmap (i / 8)) [
    | none ↦ panic
    | some b ↦ ok (b / 2 ^ (i % 8) % 2 == 1)
  ]

-- The same without the panics, for proofs: a byte that is not there reads as 0.
unfoldable pub bit_at : Bytes → ℕ → Bool
bit_at bitmap i = get_or bitmap (i / 8) 0 / 2 ^ (i % 8) % 2 == 1

unfoldable pub mark_bit : Bytes → ℕ → Bytes
mark_bit bitmap i = set bitmap (i / 8) (bit_or (get_or bitmap (i / 8) 0) (2 ^ (i % 8)))

get_elem?-get_or : (xs : Bytes) (i : ℕ) → i < length xs → get_elem? xs i ≡ some (get_or xs i 0)
get_elem?-get_or [] i h = absurd (omega arith)
get_elem?-get_or (x ∷ xs) zero h = refl
get_elem?-get_or (x ∷ xs) (suc i) h = get_elem?-get_or xs i (omega arith)

module _ {E : Type 0} where
  pub set_bit-mark_bit :
      (bm : Bytes) (i : ℕ) → i / 8 < length bm → set_bit {E = E} bm i true ≡ ok (mark_bit bm i)
  unfolding set_bit mark_bit
  set_bit-mark_bit bm i h = rw (get_elem?-get_or bm (i / 8) h, set_bit)

  pub check_bit-bit_at :
      (bm : Bytes) (i : ℕ) → i / 8 < length bm → check_bit {E = E} bm i ≡ ok (bit_at bm i)
  unfolding check_bit bit_at
  check_bit-bit_at bm i h = rw (get_elem?-get_or bm (i / 8) h, check_bit)

-- What marking does to one byte, over all bytes and positions, by evaluation.
bit_of : ℕ → ℕ → Bool
bit_of b j = b / 2 ^ j % 2 == 1

same : Bool → Bool → Bool
same true b = b
same false b = not b

eq_of_same : (a b : Bool) → same a b ≡ true → a ≡ b
unfolding same
eq_of_same true b h = ground arith
eq_of_same false b h = ground arith

-- A test of every number below a bound.
every_below : (ℕ → Bool) → ℕ → Bool
every_below test zero = true
every_below test (suc bound) = every_below test bound && test bound

every_below-true :
    (test : ℕ → Bool) (bound i : ℕ) → i < bound → every_below test bound ≡ true → test i ≡ true
unfolding every_below
every_below-true test zero i small passed = absurd (omega arith)
every_below-true test (suc bound) i small passed = ground (arith, every_below-true test bound i)

-- The case `x` packs the byte, the position that is set, and the one that is read.
or_case : ℕ → ℕ → ℕ → Bool
unfolding bit_of same
or_case b k j =
    same (bit_of (bit_or b (2 ^ k)) j) (j == k || bit_of b j) && ltb (bit_or b (2 ^ k)) 256

or_packed : ℕ → Bool
or_packed x = or_case (x / 64) (x / 8 % 8) (x % 8)

or_table : every_below or_packed 16384 ≡ true
unfolding every_below or_case or_packed
or_table = refl

or_case-true : (b k j : ℕ) → b < 256 → k < 8 → j < 8 → or_case b k j ≡ true
unfolding or_packed
or_case-true b k j hb hk hj =
    rw (byte_part, mark_part, read_part) at
      (every_below-true or_packed 16384 (b * 64 + k * 8 + j) (omega arith) or_table)
  where
    byte_part : (b * 64 + k * 8 + j) / 64 ≡ b
    byte_part = omega arith

    mark_part : (b * 64 + k * 8 + j) / 8 % 8 ≡ k
    mark_part = omega arith

    read_part : (b * 64 + k * 8 + j) % 8 ≡ j
    read_part = omega arith

or_byte :
    (b k j : ℕ)
    → b < 256
    → k < 8
    → j < 8
    → (bit_of (bit_or b (2 ^ k)) j ≡ (j == k || bit_of b j)) × (bit_or b (2 ^ k) < 256)
unfolding or_case
or_byte b k j hb hk hj =
    let (agree, small) = &&-true _ _ (or_case-true b k j hb hk hj) in
    (eq_of_same _ _ agree, ltb→lt _ _ small)

get_or-set :
    (xs : Bytes) (i j v : ℕ)
    → i < length xs
    → get_or (set xs i v) j 0 ≡ (if j == i then v else get_or xs j 0)
get_or-set [] i j v h = absurd (omega arith)
get_or-set (x ∷ xs) zero zero v h = refl
get_or-set (x ∷ xs) zero (suc j) v h = ground arith
get_or-set (x ∷ xs) (suc i) zero v h = ground arith
get_or-set (x ∷ xs) (suc i) (suc j) v h = ground (arith, get_or-set xs i j v)

get_or-IsByte : (xs : Bytes) (i : ℕ) → All IsByte xs → get_or xs i 0 < 256
get_or-IsByte [] i h = omega arith
get_or-IsByte (x ∷ xs) zero h = h.0
get_or-IsByte (x ∷ xs) (suc i) h = get_or-IsByte xs i h.1

set-IsByte : (xs : Bytes) (i v : ℕ) → All IsByte xs → v < 256 → All IsByte (set xs i v)
set-IsByte [] i v h hv = tt
set-IsByte (x ∷ xs) zero v h hv = (hv, h.1)
set-IsByte (x ∷ xs) (suc i) v h hv = (h.0, set-IsByte xs i v h.1 hv)

pub mark_bit-IsByte : (bm : Bytes) (i : ℕ) → All IsByte bm → All IsByte (mark_bit bm i)
unfolding mark_bit
mark_bit-IsByte bm i h =
    set-IsByte bm (i / 8) _ h
      (or_byte (get_or bm (i / 8) 0) (i % 8) 0 (get_or-IsByte bm (i / 8) h) (omega arith)
        (omega arith)).1

pub length-mark_bit : (bm : Bytes) (i : ℕ) → length (mark_bit bm i) ≡ length bm
unfolding mark_bit
length-mark_bit bm i = length-set bm (i / 8) _

-- Marking a position sets its bit and no other.
pub bit_at-mark_bit :
    (bm : Bytes) (i j : ℕ)
    → All IsByte bm
    → i / 8 < length bm
    → bit_at (mark_bit bm i) j ≡ (j == i || bit_at bm j)
unfolding mark_bit bit_at bit_of
bit_at-mark_bit bm i j h lt = ground (
  arith,
  get_or-set bm (i / 8) (j / 8) (bit_or (get_or bm (i / 8) 0) (2 ^ (i % 8))) lt,
  or_byte (get_or bm (i / 8) 0) (i % 8) (j % 8) (get_or-IsByte bm (i / 8) h) (omega arith)
      (omega arith),
)

pub replicate-IsByte : (n : ℕ) → All IsByte (replicate n 0)
replicate-IsByte zero = tt
replicate-IsByte (suc n) = (omega arith, replicate-IsByte n)

get_or-replicate : (n i : ℕ) → get_or {A = ℕ} (replicate n 0) i 0 ≡ 0
get_or-replicate zero i = refl
get_or-replicate (suc n) zero = refl
get_or-replicate (suc n) (suc i) = get_or-replicate n i

pub bit_at-replicate : (n i : ℕ) → bit_at (replicate n 0) i ≡ false
unfolding bit_at
bit_at-replicate n i = rw (get_or-replicate n (i / 8)) (ground arith)
