-- ===== src/Tests/Tokens.antt =====
-- Tests of the lexer (parser/lexer.go).
use my_sqlight.Parser.Lexer.Progress.{next_token_progress}
use my_sqlight.Parser.Lexer.Splits.{next_token-append, line_ends, TextOf, IsSpace}
use my_sqlight.Catalog.Stored.{All}
use my_sqlight.Maps.{bytes_beq, find}
use my_sqlight.Parser.Lexer.Words.{TokenType, Runes}
use my_sqlight.Prelude.{◌+◌, ◌<◌, ◌++◌, length, ◌⊎◌, [], ◌≡◌, ◌∷◌, refl}
use my_sqlight.Parser.Lexer.{
  is_blank, is_letter, is_digit, before_eq, takes_eq, operator_length, operator_type, lower,
  read_operator, read_token, read_after_spaces, skip_spaces, word_type, Lexer, new_lexer,
  next_token,
}

-- " <=1"
abbrev blank_le : Lexer
blank_le = new_lexer (32 ∷ 60 ∷ 61 ∷ 49 ∷ [])

less_or_equal : next_token blank_le ≡ (
  record { token_type = TokenType.token_lt_eq; literal = 60 ∷ 61 ∷ []; line = 1 },
  record { input = 49 ∷ []; line = 1 },
)
unfolding next_token skip_spaces read_after_spaces read_token read_operator operator_type
    operator_length takes_eq before_eq is_digit is_letter is_blank
less_or_equal = refl

-- "Set"
keyword : word_type (83 ∷ 101 ∷ 116 ∷ []) ≡ TokenType.token_set
unfolding word_type find bytes_beq lower
keyword = refl

next_token-append_example :
    (spaces text : Runes) × All IsSpace spaces
    × TextOf (next_token blank_le).0 (next_token blank_le).1.input text
    × (blank_le.input ≡ spaces ++ (text ++ (next_token blank_le).1.input))
    × ((next_token blank_le).1.line ≡ blank_le.line + line_ends spaces)
next_token-append_example = next_token-append blank_le

next_token_progress_example :
    (((next_token blank_le).0.token_type ≡ TokenType.token_eof)
      × ((skip_spaces blank_le.line blank_le.input).1 ≡ [])
      × ((next_token blank_le).1.input ≡ []))
    ⊎ (length (next_token blank_le).1.input < length blank_le.input)
next_token_progress_example = next_token_progress blank_le
