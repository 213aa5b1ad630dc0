-- ===== src/Parser/Lexer.antt =====
-- The lexer of parser/lexer.go. A rune is its number, and a string its runes; the source's index
-- `position` is the input from there on.
pub mod Words
pub mod Splits
pub mod Progress
use my_sqlight.Prelude.{
  Bool, [], drop, false, if◌then◌else◌, leb, map, none, some, take, true, ℕ, ◌&&◌, ◌+◌, ◌==◌, ◌||◌,
  ◌∷◌,
}
use my_sqlight.Maps.{Map, bytes_eq, find}
use my_sqlight.Parser.Lexer.Words.{TokenType, Token, Runes, keywords}

pub record Lexer : Type 0 where
  pub input : Runes
  pub line : ℕ

-- `NewLexer`
abbrev pub new_lexer : Runes → Lexer
new_lexer input = record { input = input; line = 1 }

unfoldable pub is_digit : ℕ → Bool
is_digit c = leb 48 c && leb c 57

unfoldable pub is_letter : ℕ → Bool
is_letter c = (leb 97 c && leb c 122) || (leb 65 c && leb c 90)

-- A letter, a digit or an underscore.
unfoldable pub in_word : ℕ → Bool
in_word c = (is_letter c || is_digit c) || c == 95

-- A blank, a tab or a carriage return.
unfoldable pub is_blank : ℕ → Bool
is_blank c = (c == 32 || c == 9) || c == 13

-- The loop over the whitespace: the line, and what follows.
unfoldable pub skip_spaces : ℕ → Runes → ℕ × Runes
skip_spaces line [] = (line, [])
skip_spaces line (c ∷ cs) =
    if c == 10
    then skip_spaces (line + 1) cs
    else if is_blank c
    then skip_spaces line cs
    else (line, c ∷ cs)

-- `strings.ToLower` of a word, which has no other letters than these.
unfoldable pub lower : ℕ → ℕ
lower c = if leb 65 c && leb c 90 then c + 32 else c

-- The loop of `readIdent`: the word, and what follows.
unfoldable pub take_word : Runes → Runes × Runes
take_word [] = ([], [])
take_word (c ∷ cs) = elim (in_word c) [
  | true ↦ let (word, rest) = take_word cs in (c ∷ word, rest)
  | false ↦ ([], c ∷ cs)
]

-- The type of a word.
unfoldable pub word_type : Runes → TokenType
word_type word = elim (find (map lower word) keywords) [ some t ↦ t | none ↦ TokenType.token_ident ]

unfoldable pub read_ident : ℕ → Runes → Token × Runes
read_ident line cs =
    let (word, rest) = take_word cs in
    (record { token_type = word_type word; literal = word; line = line }, rest)

-- The loop of `readString` behind the opening quote: whether the closing one was found, what stands
-- before it, and what follows it.
unfoldable pub take_string : Runes → Bool × Runes × Runes
take_string [] = (false, [], [])
take_string (c ∷ cs) = elim (c == 39) [
  | true ↦ (true, [], cs)
  | false ↦ let (closed, text, rest) = take_string cs in (closed, c ∷ text, rest)
]

unfoldable pub read_string : ℕ → Runes → Token × Runes
read_string line cs =
    let (closed, text, rest) = take_string cs in
    (
      record {
        token_type = if closed then TokenType.token_string else TokenType.token_err;
        literal = text;
        line = line;
      },
      rest,
    )

abbrev pub number_type : Bool → TokenType
number_type true = TokenType.token_float
number_type false = TokenType.token_integer

-- The loop of `readNumber`: the type, the digits with their dots, and what follows. The flag says
-- that a dot was read.
unfoldable pub take_number : Bool → Runes → TokenType × Runes × Runes
take_number float [] = (number_type float, [], [])
take_number float (c ∷ cs) = elim (c == 46) [
  | true ↦ elim float [
    | true ↦ (TokenType.token_err, c ∷ [], cs)
    | false ↦ let (t, text, rest) = take_number true cs in (t, c ∷ text, rest)
  ]
  | false ↦ elim (is_digit c) [
    | true ↦ let (t, text, rest) = take_number float cs in (t, c ∷ text, rest)
    | false ↦ (number_type float, [], c ∷ cs)
  ]
]

unfoldable pub read_number : ℕ → Runes → Token × Runes
read_number line cs =
    let (t, text, rest) = take_number false cs in
    (record { token_type = t; literal = text; line = line }, rest)

-- `=` comes next.
unfoldable pub before_eq : Runes → Bool
before_eq [] = false
before_eq (c ∷ cs) = c == 61

-- The switch of `readOperator`; the flag says that `=` comes next.
unfoldable pub operator_type : ℕ → Bool → TokenType
operator_type c eq_next =
    if c == 40
    then TokenType.token_lparen
    else if c == 41
    then TokenType.token_rparen
    else if c == 44
    then TokenType.token_comma
    else if c == 59
    then TokenType.token_semicolon
    else if c == 43
    then TokenType.token_plus
    else if c == 45
    then TokenType.token_minus
    else if c == 42
    then TokenType.token_star
    else if c == 46
    then TokenType.token_dot
    else if c == 47
    then TokenType.token_slash
    else if c == 61
    then TokenType.token_eq
    else if c == 33
    then (if eq_next then TokenType.token_not_eq else TokenType.token_err)
    else if c == 37
    then TokenType.token_percent
    else if c == 62
    then (if eq_next then TokenType.token_gt_eq else TokenType.token_gt)
    else if c == 60
    then (if eq_next then TokenType.token_lt_eq else TokenType.token_lt)
    else TokenType.token_err

-- `!`, `>` and `<` take a following `=` along.
unfoldable pub takes_eq : ℕ → Bool
takes_eq c = (c == 33 || c == 62) || c == 60

unfoldable pub operator_length : ℕ → Runes → ℕ
operator_length c cs = if takes_eq c && before_eq cs then 1 else 0

unfoldable pub read_operator : ℕ → ℕ → Runes → Token × Runes
read_operator line c cs = (
  record {
    token_type = operator_type c (before_eq cs);
    literal = c ∷ take (operator_length c cs) cs;
    line = line;
  },
  drop (operator_length c cs) cs,
)

-- The switch of `NextToken` on the first rune.
unfoldable pub read_token : ℕ → ℕ → Runes → Token × Runes
read_token line c cs =
    if is_digit c
    then read_number line (c ∷ cs)
    else if is_letter c || c == 95
    then read_ident line (c ∷ cs)
    else if c == 39
    then read_string line cs
    else read_operator line c cs

unfoldable pub read_after_spaces : ℕ → Runes → Token × Runes
read_after_spaces line [] =
    (record { token_type = TokenType.token_eof; literal = []; line = line }, [])
read_after_spaces line (c ∷ cs) = read_token line c cs

-- `NextToken`
unfoldable pub next_token : Lexer → Token × Lexer
next_token l =
    let (line, cs) = skip_spaces l.line l.input in
    let (t, rest) = read_after_spaces line cs in (t, record { input = rest; line = line })
