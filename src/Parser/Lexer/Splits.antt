-- ===== src/Parser/Lexer/Splits.antt =====
-- What `NextToken` takes off the input: whitespace, and then the token's text.
use my_sqlight.Prelude.{
  append-nil, append_assoc, ◌∙◌, ==_iff, take-append-drop, ◌⊎◌, sym, arith, ◌||◌, Bool-cases,
  if◌then◌else◌, ap, ◌++◌, ◌≡◌, ◌==◌, ℕ, ◌+◌, refl, [], ◌∷◌, true, false, inl, inr,
}
use my_sqlight.Catalog.Stored.{All}
use my_sqlight.Parser.Lexer.{
  is_blank, Bool, Lexer, next_token, skip_spaces, read_token, read_after_spaces, take_word,
  take_string, take_number, read_ident, read_string, read_number, read_operator, operator_length,
  is_digit, is_letter,
}
use my_sqlight.Parser.Lexer.Words.{TokenType, Token, Runes}

-- Whitespace, as the lexer has it.
abbrev pub IsSpace : ℕ → Type 0
IsSpace c = (c == 10 || is_blank c) ≡ true

-- The number of line ends.
unfoldable pub line_ends : Runes → ℕ
line_ends [] = 0
line_ends (c ∷ cs) = if c == 10 then line_ends cs + 1 else line_ends cs

-- How a token's literal stands in the input: as it is; or between quotes; or, where the input ends
-- before the string does, behind a quote.
pub data TextOf (t : Token) (rest : Runes) : Runes → Type 0 where
  plain : TextOf t rest t.literal
  quoted : t.token_type ≡ TokenType.token_string → TextOf t rest (39 ∷ (t.literal ++ (39 ∷ [])))
  unclosed : t.token_type ≡ TokenType.token_err → rest ≡ [] → TextOf t rest (39 ∷ t.literal)

pub take_word-append : (cs : Runes) → (take_word cs).0 ++ (take_word cs).1 ≡ cs
unfolding take_word
take_word-append [] = refl
take_word-append (c ∷ cs) = ground (arith, take_word-append cs)

pub take_number-append :
    (float : Bool) (cs : Runes) → (take_number float cs).1 ++ (take_number float cs).2 ≡ cs
unfolding take_number
take_number-append float [] = refl
take_number-append true (c ∷ cs) = ground (arith, take_number-append true cs)
take_number-append false (c ∷ cs) =
    ground (arith, take_number-append true cs, take_number-append false cs)

-- The rest of a string: its text and the quote, or its text and nothing more.
pub take_string-append :
    (cs : Runes)
    → (((take_string cs).0 ≡ true) × ((take_string cs).1 ++ (39 ∷ (take_string cs).2) ≡ cs))
      ⊎ (((take_string cs).0 ≡ false) × ((take_string cs).1 ≡ cs) × ((take_string cs).2 ≡ []))
unfolding take_string
take_string-append [] = inr (refl, refl, refl)
take_string-append (c ∷ cs) = ground (arith, take_string-append cs)

-- The token's text and what is left of the input make up the input.
abbrev Splits : Runes → Token × Runes → Type 0
Splits cs r = (text : Runes) × TextOf r.0 r.1 text × (cs ≡ text ++ r.1)

read_string-Splits : (line : ℕ) (cs : Runes) → Splits (39 ∷ cs) (read_string line cs)
unfolding read_string
read_string-Splits line cs = elim (take_string-append cs) [
  | inl (closed, e) ↦ (
    39 ∷ ((take_string cs).1 ++ (39 ∷ [])),
    quoted (rw closed refl),
    ap (◌∷◌ 39) (sym e ∙ sym (append_assoc (take_string cs).1 (39 ∷ []) (take_string cs).2)),
  )
  | inr (open_end, e, none_left) ↦ (
    39 ∷ (take_string cs).1,
    unclosed (rw open_end refl) none_left,
    ap (◌∷◌ 39) (
        sym e
        ∙ sym (append-nil (take_string cs).1)
        ∙ ap (λ rest. (take_string cs).1 ++ rest) (sym none_left)),
  )
]

read_operator-Splits : (line c : ℕ) (cs : Runes) → Splits (c ∷ cs) (read_operator line c cs)
unfolding read_operator
read_operator-Splits line c cs =
    (_, plain, ap (◌∷◌ c) (sym (take-append-drop (operator_length c cs) cs)))

read_token-Splits : (line c : ℕ) (cs : Runes) → Splits (c ∷ cs) (read_token line c cs)
unfolding read_token read_ident read_number
read_token-Splits line c cs = elim (Bool-cases (is_digit c)) [
  | inl digit ↦ rw (digit, read_token) (_, plain, sym (take_number-append false (c ∷ cs)))
  | inr other ↦ elim (Bool-cases (is_letter c || c == 95)) [
    | inl letter ↦ rw (other, letter, read_token) (_, plain, sym (take_word-append (c ∷ cs)))
    | inr third ↦ elim (Bool-cases (c == 39)) [
      | inl quote ↦
          rw (other, third, quote, (==_iff c 39).0 quote, read_token) (read_string-Splits line cs)
      | inr last ↦ rw (other, third, last, read_token) (read_operator-Splits line c cs)
    ]
  ]
]

pub skip_spaces-append :
    (line : ℕ) (cs : Runes)
    → (spaces : Runes) × All IsSpace spaces
      × (cs ≡ spaces ++ (skip_spaces line cs).1)
      × ((skip_spaces line cs).0 ≡ line + line_ends spaces)
unfolding skip_spaces line_ends
skip_spaces-append line [] = ([], tt, refl, omega arith)
skip_spaces-append line (c ∷ cs) = elim (Bool-cases (c == 10)) [
  | inl ends ↦
      let (spaces, all, e, count) = skip_spaces-append (line + 1) cs in
      (
        c ∷ spaces,
        (rw ends refl, all),
        rw (ends, skip_spaces) (ap (◌∷◌ c) e),
        rw (ends, skip_spaces, line_ends) (omega (arith, count)),
      )
  | inr other ↦ elim (Bool-cases (is_blank c)) [
    | inl blank ↦
        let (spaces, all, e, count) = skip_spaces-append line cs in
        (
          c ∷ spaces,
          (rw (other, blank) refl, all),
          rw (other, blank, skip_spaces) (ap (◌∷◌ c) e),
          rw (other, blank, skip_spaces, line_ends) (omega (arith, count)),
        )
    | inr text ↦
        ([], tt, rw (other, text, skip_spaces) refl, rw (other, text, skip_spaces) (omega arith))
  ]
]

read_after_spaces-Splits : (line : ℕ) (cs : Runes) → Splits cs (read_after_spaces line cs)
unfolding read_after_spaces
read_after_spaces-Splits line [] = ([], plain, refl)
read_after_spaces-Splits line (c ∷ cs) = read_token-Splits line c cs

-- `NextToken` loses nothing of the input: it takes whitespace off, then the text of the token that
-- it returns, and leaves the rest; the line counts on by the line ends in the whitespace.
pub next_token-append :
    (l : Lexer)
    → (spaces text : Runes) × All IsSpace spaces
      × TextOf (next_token l).0 (next_token l).1.input text
      × (l.input ≡ spaces ++ (text ++ (next_token l).1.input))
      × ((next_token l).1.line ≡ l.line + line_ends spaces)
unfolding next_token
next_token-append l =
    let (spaces, all, e, count) = skip_spaces-append l.line l.input in
    let (text, text_of, e') = read_after_spaces-Splits _ (skip_spaces l.line l.input).1 in
    (spaces, text, all, text_of, e ∙ ap (λ cs. spaces ++ cs) e', count)
