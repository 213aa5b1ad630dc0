-- ===== src/Prelude/Int64.antt =====
-- Go's int64 as an integer, and its conversion to and from uint64 (two's complement).
use Prim.Native.Nat.{ℕ, zero, suc, ◌+◌, ◌*◌, ◌/◌, ◌-◌, ◌%◌, ◌^◌, ◌<◌}
use mathlib.Core.Path.{◌≡◌}
use mathlib.Core.Bool.{Bool, true, false, not}
use native.Mathlib.Omega.{arith}
use my_sqlight.Prelude.Tests.{ltb, if◌then◌else◌}

-- `negsuc n` is -(n + 1).
pub data ℤ : Type 0 where
  pos : ℕ → ℤ
  negsuc : ℕ → ℤ

-- The integers that an int64 holds.
abbrev pub IsInt64 : ℤ → Type 0
IsInt64 (pos n) = n < 2 ^ 63
IsInt64 (negsuc n) = n < 2 ^ 63

-- `uint64(x)`
unfoldable pub to_u64 : ℤ → ℕ
to_u64 (pos n) = n % 2 ^ 64
to_u64 (negsuc n) = 2 ^ 64 - 1 - n % 2 ^ 64

-- `int64(w)`
unfoldable pub of_u64 : ℕ → ℤ
of_u64 w = if ltb w (2 ^ 63) then pos w else negsuc (2 ^ 64 - 1 - w)

pub to_u64-lt : (z : ℤ) → to_u64 z < 2 ^ 64
unfolding to_u64
to_u64-lt (pos n) = omega arith
to_u64-lt (negsuc n) = omega arith

pub of_u64-to_u64 : (z : ℤ) → IsInt64 z → of_u64 (to_u64 z) ≡ z
unfolding to_u64 of_u64
of_u64-to_u64 (pos n) h = ground arith
of_u64-to_u64 (negsuc n) h = ground arith

-- The int64 with the sign and the magnitude, which wrap.
unfoldable pub signed : Bool → ℕ → ℤ
signed false n = of_u64 (n % 2 ^ 64)
signed true n = of_u64 ((2 ^ 64 - n % 2 ^ 64) % 2 ^ 64)

abbrev pub negative : ℤ → Bool
negative (pos n) = false
negative (negsuc n) = true

abbrev pub magnitude : ℤ → ℕ
magnitude (pos n) = n
magnitude (negsuc n) = suc n

abbrev pub differ : Bool → Bool → Bool
differ true b = not b
differ false b = b

-- Go's `-a`, `a + b`, `a - b`, `a * b`, `a / b` and `a % b` on int64, the last two for b ≠ 0.
unfoldable pub neg_int : ℤ → ℤ
neg_int a = of_u64 ((2 ^ 64 - to_u64 a) % 2 ^ 64)

unfoldable pub add_int : ℤ → ℤ → ℤ
add_int a b = of_u64 ((to_u64 a + to_u64 b) % 2 ^ 64)

unfoldable pub sub_int : ℤ → ℤ → ℤ
sub_int a b = of_u64 ((to_u64 a + (2 ^ 64 - to_u64 b)) % 2 ^ 64)

unfoldable pub mul_int : ℤ → ℤ → ℤ
mul_int a b = of_u64 ((to_u64 a * to_u64 b) % 2 ^ 64)

unfoldable pub div_int : ℤ → ℤ → ℤ
div_int a b = signed (differ (negative a) (negative b)) (magnitude a / magnitude b)

unfoldable pub mod_int : ℤ → ℤ → ℤ
mod_int a b = signed (negative a) (magnitude a % magnitude b)

abbrev pub is_zero : ℤ → Bool
is_zero (pos zero) = true
is_zero z = false
