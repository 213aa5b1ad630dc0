-- ===== src/Executor/Like/Correct.antt =====
-- `likeMatch` decides what its pattern means.
use my_sqlight.Prelude.{
  append_assoc, drop_append, ◌+◌, Bool-cases, ap, ◌↔◌, ◌∙◌, Option-cases, ◌++◌, ◌≡◌, [], ◌∷◌, true,
  refl, sym, arith, inl, inr,
}
use my_sqlight.Bytes.{Bytes}
use my_sqlight.Maps.{bytes_eq_iff}
use my_sqlight.Executor.Like.{
  length, some, drop, List, split_percent, has_prefix, index, match_parts, match_split, like_match,
}
use my_sqlight.Executor.Like.Pattern.{IsLike, IsParts, IsLike-IsParts, IsParts-IsLike, split-whole}
use my_sqlight.Executor.Like.Text.{
  has_prefix_sound, has_prefix-append, has_suffix_iff, index_sound, index-first,
}

-- The parts, with any text before the first.
abbrev Behind : Bytes → List Bytes → Bytes → Type 0
Behind part parts s =
    (front : Bytes) × (back : Bytes) × (s ≡ front ++ back) × IsParts part parts back

match_parts-Behind :
    (parts : List Bytes) (remaining part : Bytes)
    → match_parts remaining part parts ≡ true
    → Behind part parts remaining
unfolding match_parts
match_parts-Behind [] remaining part h =
    let (front, e) = (has_suffix_iff remaining part).0 h in (front, part, e, refl)
match_parts-Behind (q ∷ qs) remaining part h = elim (Option-cases (index remaining part)) [
  | inl missing ↦ absurd (ground (arith, h, missing))
  | inr (i, found) ↦
      let rest : Bytes = drop (i + length part) remaining in
      let (front, e) = index_sound remaining part i found in
      let (front', back, e', h') = match_parts-Behind qs rest q (ground (arith, h, found)) in
      (front, part ++ rest, e, (front', back, ap (λ x. part ++ x) e', h'))
]

Behind-match_parts :
    (parts : List Bytes) (remaining part : Bytes)
    → Behind part parts remaining
    → match_parts remaining part parts ≡ true
unfolding match_parts
Behind-match_parts [] remaining part (front, back, e, h) =
    (has_suffix_iff remaining part).1 (front, e ∙ ap (λ x. front ++ x) h)
Behind-match_parts (q ∷ qs) remaining part (front, back, e, (front', back', e', h)) =
    let (i, c, found, left) = index-first front part (front' ++ back') in
    let whole : remaining ≡ front ++ (part ++ (front' ++ back')) = e ∙ ap (λ x. front ++ x) e' in
    let found' : index remaining part ≡ some i = ap (λ x. index x part) whole ∙ found in
    let left' : drop (i + length part) remaining ≡ (c ++ front') ++ back' =
      ap (drop (i + length part)) whole ∙ left ∙ sym (append_assoc c front' back') in
    rw (found', match_parts)
      (Behind-match_parts qs (drop (i + length part) remaining) q (c ++ front', back', left', h))

match_split_iff :
    (pattern_ s first : Bytes) (parts : List Bytes)
    → (parts ≡ [] → first ≡ pattern_)
    → (match_split s pattern_ first parts ≡ true) ↔ IsParts first parts s
unfolding match_split
match_split_iff pattern_ s first [] h = (
  λ same. (bytes_eq_iff s pattern_).0 same ∙ sym (h refl),
  λ e. (bytes_eq_iff s pattern_).1 (e ∙ h refl),
)
match_split_iff pattern_ s first (part ∷ parts) h = (found, given)
  where
    found : match_split s pattern_ first (part ∷ parts) ≡ true → IsParts first (part ∷ parts) s
    found m = elim (Bool-cases (has_prefix s first)) [
      | inr none_found ↦ absurd (ground (arith, m, none_found))
      | inl begins ↦
          let (front, back, e, h') =
            match_parts-Behind parts (drop (length first) s) part (ground (arith, m, begins)) in
          (front, back, has_prefix_sound s first begins ∙ ap (λ x. first ++ x) e, h')
    ]

    given : IsParts first (part ∷ parts) s → match_split s pattern_ first (part ∷ parts) ≡ true
    given (front, back, e, h') =
        let begins : has_prefix s first ≡ true =
          ap (λ x. has_prefix x first) e ∙ has_prefix-append first (front ++ back) in
        let rest : drop (length first) s ≡ front ++ back =
          ap (drop (length first)) e ∙ drop_append first (front ++ back) in
        rw (begins, match_split)
          (Behind-match_parts parts (drop (length first) s) part (front, back, rest, h'))

-- `likeMatch` holds exactly where the pattern means the text, a `%` standing for any bytes and every
-- other byte for itself: that it takes the first occurrence of each part misses no match.
pub like_match_iff : (s pattern_ : Bytes) → (like_match s pattern_ ≡ true) ↔ IsLike pattern_ s
unfolding like_match
like_match_iff s pattern_ =
    let (found, given) =
      match_split_iff pattern_ s (split_percent pattern_).0 (split_percent pattern_).1
        (split-whole pattern_) in
    (λ h. IsParts-IsLike pattern_ s (found h), λ h. given (IsLike-IsParts pattern_ s h))
