-- ===== src/Executor/Like.antt =====
-- `likeMatch` of executor/filter.go, with what it uses of the package strings. A string is its
-- bytes, and a slice of it from an index on is what is left of it.
pub mod Text
pub mod Pattern
pub mod Correct
use my_sqlight.Prelude.{
  ◌-◌, length, ◌&&◌, if◌then◌else◌, ◌==◌, drop, leb, List, Bool, Option, ℕ, suc, ◌+◌, [], ◌∷◌, true,
  false, some, none,
}
use my_sqlight.Bytes.{Bytes}
use my_sqlight.Maps.{bytes_beq}

-- `strings.Split(s, "%")`: the part before the first `%`, and the parts behind it.
unfoldable pub split_percent : Bytes → Bytes × List Bytes
split_percent [] = ([], [])
split_percent (c ∷ cs) =
    let (part, parts) = split_percent cs in
    if c == 37 then ([], part ∷ parts) else (c ∷ part, parts)

-- `strings.HasPrefix(s, prefix)`
unfoldable pub has_prefix : Bytes → Bytes → Bool
has_prefix s [] = true
has_prefix [] (p ∷ ps) = false
has_prefix (c ∷ cs) (p ∷ ps) = c == p && has_prefix cs ps

-- `strings.HasSuffix(s, suffix)`
unfoldable pub has_suffix : Bytes → Bytes → Bool
has_suffix s suffix =
    leb (length suffix) (length s) && bytes_beq (drop (length s - length suffix) s) suffix

-- `strings.Index(s, part)`; `none` stands for -1.
unfoldable pub index : Bytes → Bytes → Option ℕ
index [] part = if has_prefix [] part then some 0 else none
index (c ∷ cs) part = elim (has_prefix (c ∷ cs) part) [
  | true ↦ some 0
  | false ↦ elim (index cs part) [ some i ↦ some (suc i) | none ↦ none ]
]

-- The loop over the parts between the first and the last, and the test of the last one.
unfoldable pub match_parts : Bytes → Bytes → List Bytes → Bool
match_parts remaining part [] = has_suffix remaining part
match_parts remaining part (next_part ∷ parts) = elim (index remaining part) [
  | none ↦ false
  | some i ↦ match_parts (drop (i + length part) remaining) next_part parts
]

unfoldable pub match_split : Bytes → Bytes → Bytes → List Bytes → Bool
match_split str pattern_ first [] = bytes_beq str pattern_
match_split str pattern_ first (part ∷ parts) =
    if has_prefix str first then match_parts (drop (length first) str) part parts else false

unfoldable pub like_match : Bytes → Bytes → Bool
like_match str pattern_ =
    let (first, parts) = split_percent pattern_ in match_split str pattern_ first parts
