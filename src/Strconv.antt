-- ===== src/Strconv.antt =====
-- `strconv.ParseInt(s, 10, 64)` and `strconv.FormatInt(n, 10)`, as the source uses them.
pub mod RoundTrip
use my_sqlight.Prelude.{
  ℕ, zero, suc, ◌+◌, ◌*◌, ◌/◌, ◌%◌, ◌-◌, ◌^◌, ◌==◌, ltb, leb, Bool, true, false, ◌&&◌,
  if◌then◌else◌, Option, some, none, List, [], ◌∷◌, ◌++◌,
}
use my_sqlight.Prelude.Int64.{ℤ, pos, negsuc}
use my_sqlight.Bytes.{Bytes}

-- The number that the digits `cs` continue, after the digits of `n`.
unfoldable pub digits_from : ℕ → Bytes → Option ℕ
digits_from n [] = some n
digits_from n (c ∷ cs) =
    let rest = digits_from (n * 10 + (c - 48)) cs in if leb 48 c && leb c 57 then rest else none

-- One digit at least.
unfoldable pub parse_digits : Bytes → Option ℕ
parse_digits [] = none
parse_digits (c ∷ cs) = digits_from 0 (c ∷ cs)

unfoldable pub in_range : Bool → ℕ → Option ℤ
in_range false n = if ltb n (2 ^ 63) then some (pos n) else none
in_range true zero = some (pos 0)
in_range true (suc n) = if ltb n (2 ^ 63) then some (negsuc n) else none

unfoldable pub signed_digits : Bool → Option ℕ → Option ℤ
signed_digits negative none = none
signed_digits negative (some n) = in_range negative n

unfoldable pub parse_int : Bytes → Option ℤ
parse_int [] = none
parse_int (c ∷ cs) =
    if c == 43
    then signed_digits false (parse_digits cs)
    else if c == 45
    then signed_digits true (parse_digits cs)
    else signed_digits false (parse_digits (c ∷ cs))

-- The last `fuel` digits of `n` at most; an int64 has 19.
unfoldable pub format_digits : ℕ → ℕ → Bytes
format_digits zero n = []
format_digits (suc fuel) n =
    let rest = format_digits fuel (n / 10) in
    if ltb n 10 then (n + 48) ∷ [] else rest ++ ((n % 10 + 48) ∷ [])

unfoldable pub format_int : ℤ → Bytes
format_int (pos n) = format_digits 20 n
format_int (negsuc n) = 45 ∷ format_digits 20 (suc n)
