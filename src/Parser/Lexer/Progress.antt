-- ===== src/Parser/Lexer/Progress.antt =====
-- A client that calls `NextToken` until the end of the input comes to an end.
use my_sqlight.Prelude.{
  ap, length-drop, length-append, arith, ◌==◌, ◌<◌, ◌⊎◌, ◌≤◌, ◌||◌, length, Bool-cases, ◌≡◌, ℕ,
  refl, [], ◌∷◌, true, false, inl, inr,
}
use my_sqlight.Parser.Lexer.{
  Bool, Lexer, next_token, skip_spaces, read_token, read_after_spaces, take_word, take_string,
  take_number, read_ident, read_string, read_number, read_operator, operator_length, is_digit,
  is_letter, in_word,
}
use my_sqlight.Parser.Lexer.Words.{TokenType, Token, Runes}
use my_sqlight.Parser.Lexer.Splits.{take_word-append, take_number-append, skip_spaces-append}

take_word-le : (cs : Runes) → length (take_word cs).1 ≤ length cs
take_word-le cs =
    omega (arith, length-append (take_word cs).0 (take_word cs).1, ap length (take_word-append cs))

take_number-le : (float : Bool) (cs : Runes) → length (take_number float cs).2 ≤ length cs
take_number-le float cs = omega (
  arith,
  length-append (take_number float cs).1 (take_number float cs).2,
  ap length (take_number-append float cs),
)

take_string-le : (cs : Runes) → length (take_string cs).2 ≤ length cs
unfolding take_string
take_string-le [] = omega arith
take_string-le (c ∷ cs) = ground (arith, take_string-le cs)

Shrinks : Runes → Token × Runes → Type 0
Shrinks cs r = length r.1 < length cs

read_number-Shrinks :
    (line c : ℕ) (cs : Runes) → is_digit c ≡ true → Shrinks (c ∷ cs) (read_number line (c ∷ cs))
unfolding Shrinks read_number take_number is_digit
read_number-Shrinks line c cs digit =
    ground (arith, take_number-le false cs, take_number-le true cs)

read_ident-Shrinks :
    (line c : ℕ) (cs : Runes)
    → (is_letter c || c == 95) ≡ true
    → Shrinks (c ∷ cs) (read_ident line (c ∷ cs))
unfolding Shrinks read_ident take_word in_word
read_ident-Shrinks line c cs letter = ground (arith, take_word-le cs)

read_token-Shrinks : (line c : ℕ) (cs : Runes) → Shrinks (c ∷ cs) (read_token line c cs)
unfolding Shrinks read_token read_string read_operator
read_token-Shrinks line c cs = elim (Bool-cases (is_digit c)) [
  | inl digit ↦ rw (digit, read_token) (read_number-Shrinks line c cs digit)
  | inr other ↦ elim (Bool-cases (is_letter c || c == 95)) [
    | inl letter ↦ rw (other, letter, read_token) (read_ident-Shrinks line c cs letter)
    | inr third ↦
        ground (arith, other, third, take_string-le cs, length-drop (operator_length c cs) cs)
  ]
]

skip_spaces-le : (line : ℕ) (cs : Runes) → length (skip_spaces line cs).1 ≤ length cs
skip_spaces-le line cs =
    let (spaces, _, e, _) = skip_spaces-append line cs in
    omega (arith, length-append spaces (skip_spaces line cs).1, ap length e)

after_spaces-progress :
    (line : ℕ) (cs : Runes)
    → (((read_after_spaces line cs).0.token_type ≡ TokenType.token_eof)
        × (cs ≡ [])
        × ((read_after_spaces line cs).1 ≡ []))
      ⊎ (length (read_after_spaces line cs).1 < length cs)
unfolding read_after_spaces Shrinks
after_spaces-progress line [] = inl (refl, refl, refl)
after_spaces-progress line (c ∷ cs) = inr (read_token-Shrinks line c cs)

-- `NextToken` makes progress: either only whitespace was left, and it returns the end of the input
-- with nothing left, or it leaves less of the input than it found.
pub next_token_progress :
    (l : Lexer)
    → (((next_token l).0.token_type ≡ TokenType.token_eof)
        × ((skip_spaces l.line l.input).1 ≡ [])
        × ((next_token l).1.input ≡ []))
      ⊎ (length (next_token l).1.input < length l.input)
unfolding next_token
next_token_progress l =
    elim (after_spaces-progress (skip_spaces l.line l.input).0 (skip_spaces l.line l.input).1) [
      | inl ended ↦ inl ended
      | inr less ↦ inr (omega (arith, less, skip_spaces-le l.line l.input))
    ]
