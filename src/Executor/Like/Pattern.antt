-- ===== src/Executor/Like/Pattern.antt =====
-- What a LIKE pattern means, byte by byte, and the same over the parts between its `%`.
use my_sqlight.Prelude.{
  ◌⊎◌, ◌∙◌, ==_iff, ◌==◌, ◌++◌, ap, subst, Bool-cases, ◌≡◌, ◌≢◌, ℕ, [], ◌∷◌, refl, sym, arith, inl,
  inr,
}
use my_sqlight.Bytes.{Bytes}
use my_sqlight.Executor.Like.{List, split_percent}

-- A `%` stands for any text, and any other byte for itself.
abbrev pub IsLike : Bytes → Bytes → Type 0
IsLike [] s = s ≡ []
IsLike (c ∷ pattern_) s =
    ((c ≡ 37) × (front : Bytes) × (back : Bytes) × (s ≡ front ++ back) × IsLike pattern_ back)
    ⊎ ((c ≢ 37) × (rest : Bytes) × (s ≡ c ∷ rest) × IsLike pattern_ rest)

-- The text is the parts, with any text between each two of them.
abbrev pub IsParts : Bytes → List Bytes → Bytes → Type 0
IsParts part [] s = s ≡ part
IsParts part (q ∷ qs) s =
    (front : Bytes) × (back : Bytes) × (s ≡ part ++ (front ++ back)) × IsParts q qs back

split-percent :
    (pattern_ : Bytes)
    → split_percent (37 ∷ pattern_) ≡ ([], (split_percent pattern_).0 ∷ (split_percent pattern_).1)
unfolding split_percent
split-percent pattern_ = refl

split-other :
    (c : ℕ) (pattern_ : Bytes)
    → c ≢ 37
    → split_percent (c ∷ pattern_) ≡ (c ∷ (split_percent pattern_).0, (split_percent pattern_).1)
unfolding split_percent
split-other c pattern_ ne = ground (arith, ne)

IsParts-cons :
    (c : ℕ) (part : Bytes) (parts : List Bytes) (rest : Bytes)
    → IsParts part parts rest
    → IsParts (c ∷ part) parts (c ∷ rest)
IsParts-cons c part [] rest h = ap (◌∷◌ c) h
IsParts-cons c part (q ∷ qs) rest (front, back, e, h) = (front, back, ap (◌∷◌ c) e, h)

IsParts-cons_inv :
    (c : ℕ) (part : Bytes) (parts : List Bytes) (s : Bytes)
    → IsParts (c ∷ part) parts s
    → (rest : Bytes) × (s ≡ c ∷ rest) × IsParts part parts rest
IsParts-cons_inv c part [] s h = (part, h, refl)
IsParts-cons_inv c part (q ∷ qs) s (front, back, e, h) =
    (part ++ (front ++ back), e, (front, back, refl, h))

-- A pattern without a `%` is its only part.
pub split-whole :
    (pattern_ : Bytes) → (split_percent pattern_).1 ≡ [] → (split_percent pattern_).0 ≡ pattern_
unfolding split_percent
split-whole [] h = refl
split-whole (c ∷ cs) h = ground (arith, split-whole cs)

pub IsLike-IsParts :
    (pattern_ s : Bytes)
    → IsLike pattern_ s
    → IsParts (split_percent pattern_).0 (split_percent pattern_).1 s
unfolding split_percent
IsLike-IsParts [] s h = h
IsLike-IsParts (c ∷ cs) s (inl (e, front, back, cut, h)) =
    subst (λ r. IsParts r.0 r.1 s) (sym (ap (λ x. split_percent (x ∷ cs)) e ∙ split-percent cs))
      (front, back, cut, IsLike-IsParts cs back h)
IsLike-IsParts (c ∷ cs) s (inr (ne, rest, e, h)) =
    subst (λ r. IsParts r.0 r.1 s) (sym (split-other c cs ne))
      (subst (IsParts (c ∷ (split_percent cs).0) (split_percent cs).1) (sym e)
        (IsParts-cons c (split_percent cs).0 (split_percent cs).1 rest (IsLike-IsParts cs rest h)))

pub IsParts-IsLike :
    (pattern_ s : Bytes)
    → IsParts (split_percent pattern_).0 (split_percent pattern_).1 s
    → IsLike pattern_ s
unfolding split_percent
IsParts-IsLike [] s h = h
IsParts-IsLike (c ∷ cs) s h = elim (Bool-cases (c == 37)) [
  | inl percent ↦
      let e : c ≡ 37 = (==_iff c 37).0 percent in
      let (front, back, cut, h') =
        subst (λ r. IsParts r.0 r.1 s) (ap (λ x. split_percent (x ∷ cs)) e ∙ split-percent cs) h in
      inl (e, front, back, cut, IsParts-IsLike cs back h')
  | inr other ↦
      let ne : c ≢ 37 = (λ e. ground (arith, e, other)) in
      let (rest, e, h') =
        IsParts-cons_inv c (split_percent cs).0 (split_percent cs).1 s
          (subst (λ r. IsParts r.0 r.1 s) (split-other c cs ne) h) in
      inr (ne, rest, e, IsParts-IsLike cs rest h')
]
