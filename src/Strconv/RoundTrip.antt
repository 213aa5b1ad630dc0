-- ===== src/Strconv/RoundTrip.antt =====
-- Numbers as decimal digits and back.
use my_sqlight.Prelude.{
  sym, subst, ◌∙◌, ap, ◌≡◌, ℕ, zero, suc, ◌+◌, ◌*◌, ◌/◌, ◌%◌, ◌-◌, ◌^◌, ◌<◌, ◌≤◌, ltb, Bool, true,
  false, if◌then◌else◌, Option, some, none, [], ◌∷◌, ◌++◌, arith, refl,
}
use my_sqlight.Prelude.Int64.{ℤ, pos, negsuc, IsInt64}
use my_sqlight.Bytes.{Bytes}
use my_sqlight.Strconv.{
  digits_from, parse_digits, in_range, signed_digits, parse_int, format_digits, format_int,
}

digits_from-digit : (n d : ℕ) → d < 10 → digits_from n ((d + 48) ∷ []) ≡ some (n * 10 + d)
unfolding digits_from
digits_from-digit n d h = ground arith

abbrev then_digits : Option ℕ → Bytes → Option ℕ
then_digits none ys = none
then_digits (some m) ys = digits_from m ys

digits_from-append :
    (n : ℕ) (xs ys : Bytes) → digits_from n (xs ++ ys) ≡ then_digits (digits_from n xs) ys
unfolding digits_from
digits_from-append n [] ys = refl
digits_from-append n (x ∷ xs) ys = ground (arith, digits_from-append (n * 10 + (x - 48)) xs ys)

ten_more : (fuel n : ℕ) → n < 10 ^ suc fuel → n / 10 < 10 ^ fuel
ten_more fuel n h = omega arith

digits_from-format_digits :
    (fuel n : ℕ) → n < 10 ^ fuel → digits_from 0 (format_digits fuel n) ≡ some n
unfolding format_digits digits_from
digits_from-format_digits zero n h = ap some (omega arith)
digits_from-format_digits (suc fuel) n h =
    let before = digits_from-format_digits fuel (n / 10) (ten_more fuel n h) in
    let last = digits_from-digit (n / 10) (n % 10) (omega arith) in
    ground
      (arith, before, last, digits_from-append 0 (format_digits fuel (n / 10)) ((n % 10 + 48) ∷ []))

StartsWithDigit : Bytes → Type 0
StartsWithDigit s = (c : ℕ) × ((cs : Bytes) × ((s ≡ c ∷ cs) × (48 ≤ c)))

StartsWithDigit-append : (s t : Bytes) → StartsWithDigit s → StartsWithDigit (s ++ t)
unfolding StartsWithDigit
StartsWithDigit-append s t (c, (cs, (e, h))) = (c, (cs ++ t, (ap (λ u. u ++ t) e, h)))

one_digit : (n : ℕ) → StartsWithDigit ((n + 48) ∷ [])
unfolding StartsWithDigit
one_digit n = (n + 48, ([], (refl, omega arith)))

if-StartsWithDigit :
    (b : Bool) (s t : Bytes)
    → StartsWithDigit s
    → StartsWithDigit t
    → StartsWithDigit (if b then s else t)
if-StartsWithDigit true s t h k = h
if-StartsWithDigit false s t h k = k

format_digits-StartsWithDigit : (fuel n : ℕ) → StartsWithDigit (format_digits (suc fuel) n)
unfolding format_digits
format_digits-StartsWithDigit zero n =
    if-StartsWithDigit (ltb n 10) ((n + 48) ∷ []) ((n % 10 + 48) ∷ []) (one_digit n)
      (one_digit (n % 10))
format_digits-StartsWithDigit (suc fuel) n =
    if-StartsWithDigit (ltb n 10) ((n + 48) ∷ [])
      (format_digits (suc fuel) (n / 10) ++ ((n % 10 + 48) ∷ [])) (one_digit n)
      (StartsWithDigit-append (format_digits (suc fuel) (n / 10)) ((n % 10 + 48) ∷ [])
        (format_digits-StartsWithDigit fuel (n / 10)))

parse_digits-digit : (s : Bytes) → StartsWithDigit s → parse_digits s ≡ digits_from 0 s
unfolding parse_digits StartsWithDigit
parse_digits-digit s (c, (cs, (e, h))) = rw e refl

parse_int-digit :
    (s : Bytes) → StartsWithDigit s → parse_int s ≡ signed_digits false (parse_digits s)
unfolding parse_int StartsWithDigit
parse_int-digit s (c, (cs, (e, h))) =
    subst (λ t. parse_int t ≡ signed_digits false (parse_digits t)) (sym e) ground arith

parse_digits-format_digits : (n : ℕ) → n < 10 ^ 20 → parse_digits (format_digits 20 n) ≡ some n
parse_digits-format_digits n h =
    parse_digits-digit (format_digits 20 n) (format_digits-StartsWithDigit 19 n)
    ∙ digits_from-format_digits 20 n h

-- An int64 that is printed is read back.
pub parse_int-format_int : (z : ℤ) → IsInt64 z → parse_int (format_int z) ≡ some z
unfolding format_int parse_int signed_digits in_range
parse_int-format_int (pos n) h =
    let digits = parse_digits-format_digits n (omega arith) in
    let read = parse_int-digit (format_digits 20 n) (format_digits-StartsWithDigit 19 n) in
    ground (arith, digits, read)
parse_int-format_int (negsuc n) h =
    let digits = parse_digits-format_digits (suc n) (omega arith) in ground (arith, digits)
