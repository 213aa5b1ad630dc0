-- ===== src/Bytes/Laws.antt =====
-- Laws of the big-endian numbers and of the reads: each read takes back what was written.
use my_sqlight.Prelude.{
  ℕ, zero, suc, ◌+◌, ◌*◌, ◌/◌, ◌%◌, ◌^◌, ◌<◌, ◌≡◌, refl, sym, arith, [], ◌∷◌, ◌++◌, append_assoc,
  length, length-append, ltb, false, ok,
}
use my_sqlight.Bytes.{Bytes, put_be, from_be, take_bytes, take_be, take_text, put_text}
use native.Mathlib.Nat.{pow-suc}

pub length-put_be : (n v : ℕ) → length (put_be n v) ≡ n
unfolding put_be
length-put_be zero v = refl
length-put_be (suc n) v =
    omega (arith, length-append (put_be n (v / 256)) (v % 256 ∷ []), length-put_be n (v / 256))

from_be-append :
    (acc : ℕ) (bs : Bytes) (b : ℕ) → from_be acc (bs ++ (b ∷ [])) ≡ from_be acc bs * 256 + b
unfolding from_be
from_be-append acc [] b = refl
from_be-append acc (a ∷ bs) b = from_be-append (acc * 256 + a) bs b

pub from_be-put_be : (n v : ℕ) → v < 256 ^ n → from_be 0 (put_be n v) ≡ v
unfolding from_be put_be
from_be-put_be zero v h = omega arith
from_be-put_be (suc n) v h =
    rw from_be-append (omega (arith, from_be-put_be n (v / 256) (omega (arith, pow-suc 256 n))))

-- The test that a decoder makes before it reads: enough is left.
pub enough-append :
    (n : ℕ) (front rest : Bytes) → length front ≡ n → ltb (length (front ++ rest)) n ≡ false
enough-append n front rest h = ground (arith, length-append front rest)

module _ {E : Type 0} where
  pub take_bytes-append :
      (front rest : Bytes) → take_bytes {E = E} (length front) (front ++ rest) ≡ ok (front, rest)
  unfolding take_bytes
  take_bytes-append [] rest = refl
  take_bytes-append (b ∷ front) rest = rw (take_bytes-append front rest)

  pub take_bytes-append_of :
      (n : ℕ) (front rest : Bytes)
      → length front ≡ n
      → take_bytes {E = E} n (front ++ rest) ≡ ok (front, rest)
  take_bytes-append_of n front rest h = rw (sym h) (take_bytes-append front rest)

  pub take_be-put_be :
      (n v : ℕ) (rest : Bytes) → v < 256 ^ n → take_be {E = E} n (put_be n v ++ rest) ≡ ok (v, rest)
  unfolding take_be
  take_be-put_be n v rest h =
      rw (take_bytes-append_of n (put_be n v) rest (length-put_be n v), from_be-put_be n v h)

  pub take_text-put_text :
      (s rest : Bytes) → length s < 2 ^ 32 → take_text {E = E} (put_text s ++ rest) ≡ ok (s, rest)
  unfolding take_text put_text
  take_text-put_text s rest h =
      rw
        (
          append_assoc (put_be 4 (length s % 2 ^ 32)) s rest,
          take_be-put_be 4 (length s % 2 ^ 32) (s ++ rest) (omega arith),
        )
        (rw fits (take_bytes-append s rest))
    where
      fits : length s % 2 ^ 32 ≡ length s
      fits = omega arith
