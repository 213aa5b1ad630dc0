-- ===== src/Executor/Like/Text.antt =====
-- What the package strings finds: prefixes, suffixes and first occurrences.
use my_sqlight.Prelude.{
  subst, take-append-drop, take, length-append, append_assoc, Option-cases, drop_append, Bool-cases,
  ◌∙◌, ◌-◌, ap₂, ◌==◌, ap, ◌≤◌, &&-true, ==_iff, ◌↔◌, ◌≡◌, ◌++◌, ℕ, suc, ◌+◌, [], ◌∷◌, true, false,
  some, refl, sym, arith, inl, inr,
}
use my_sqlight.Bytes.{Bytes}
use my_sqlight.Maps.{bytes_eq_iff}
use my_sqlight.Executor.Like.{Option, leb, drop, length, has_prefix, has_suffix, index}

pub has_prefix_sound :
    (s prefix : Bytes) → has_prefix s prefix ≡ true → s ≡ prefix ++ drop (length prefix) s
unfolding has_prefix
has_prefix_sound s [] h = refl
has_prefix_sound [] (p ∷ ps) h = cc
has_prefix_sound (c ∷ cs) (p ∷ ps) h =
    let (same, rest) = &&-true (c == p) (has_prefix cs ps) h in
    ap₂ ◌∷◌ ((==_iff c p).0 same) (has_prefix_sound cs ps rest)

pub has_prefix-append : (prefix rest : Bytes) → has_prefix (prefix ++ rest) prefix ≡ true
unfolding has_prefix
has_prefix-append [] [] = refl
has_prefix-append [] (r ∷ rest) = refl
has_prefix-append (p ∷ ps) rest = rw ((==_iff p p).1 refl, has_prefix-append ps rest)

drop_front :
    (front suffix : Bytes)
    → drop (length (front ++ suffix) - length suffix) (front ++ suffix) ≡ suffix
drop_front front suffix = rw front_length (drop_append front suffix)
  where
    front_length : length (front ++ suffix) - length suffix ≡ length front
    front_length = omega (arith, length-append front suffix)

-- `HasSuffix` is that the text ends so.
pub has_suffix_iff :
    (s suffix : Bytes) → (has_suffix s suffix ≡ true) ↔ ((front : Bytes) × (s ≡ front ++ suffix))
unfolding has_suffix
has_suffix_iff s suffix = (found, given)
  where
    found : has_suffix s suffix ≡ true → (front : Bytes) × (s ≡ front ++ suffix)
    found h =
        let (_, same) = &&-true (leb (length suffix) (length s)) _ h in
        (
          take (length s - length suffix) s,
          sym (take-append-drop (length s - length suffix) s)
              ∙ ap (λ x. take (length s - length suffix) s ++ x) ((bytes_eq_iff _ _).0 same),
        )

    given : (front : Bytes) × (s ≡ front ++ suffix) → has_suffix s suffix ≡ true
    given (front, e) =
        subst (λ x. has_suffix x suffix ≡ true) (sym e)
          (rw (drop_front front suffix, has_suffix, (bytes_eq_iff suffix suffix).1 refl)
            (ground (arith, length-append front suffix)))

-- Two ways to cut a text: what is left by the earlier cut ends with what is left by the later one.
pub later_cut :
    (a b x y : Bytes) → a ++ x ≡ b ++ y → length a ≤ length b → (c : Bytes) × (x ≡ c ++ y)
later_cut [] b x y e h = (b, e)
later_cut (a ∷ as₁) [] x y e h = absurd (omega arith)
later_cut (a ∷ as₁) (b ∷ bs) x y e h = later_cut as₁ bs x y (ap (drop 1) e) (omega arith)

suc_add : (i n : ℕ) → suc i + n ≡ suc (i + n)
suc_add i n = omega arith

zero_add : (n : ℕ) → 0 + n ≡ n
zero_add n = omega arith

index-prefix : (s part : Bytes) → has_prefix s part ≡ true → index s part ≡ some 0
unfolding index
index-prefix [] part h = rw (h, index) refl
index-prefix (c ∷ cs) part h = rw (h, index) refl

index-cons :
    (c : ℕ) (cs part : Bytes) (i : ℕ)
    → has_prefix (c ∷ cs) part ≡ false
    → index cs part ≡ some i
    → index (c ∷ cs) part ≡ some (suc i)
unfolding index
index-cons c cs part i h e = rw (h, index, e) refl

some_inj : {a b : ℕ} → ◌≡◌ {A = Option ℕ} (some a) (some b) → a ≡ b
some_inj e = cc

index-cons_inv :
    (c : ℕ) (cs part : Bytes) (i : ℕ)
    → has_prefix (c ∷ cs) part ≡ false
    → index (c ∷ cs) part ≡ some i
    → (j : ℕ) × (i ≡ suc j) × (index cs part ≡ some j)
unfolding index
index-cons_inv c cs part i later h = elim (Option-cases (index cs part)) [
  | inl missing ↦ absurd (ground (arith, h, later, missing))
  | inr (j, found) ↦ (j, ground (arith, h, later, found), found)
]

index-nil_inv : (part : Bytes) (i : ℕ) → index [] part ≡ some i → has_prefix [] part ≡ true
unfolding index
index-nil_inv part i h = ground (arith, h)

at_start :
    (s part : Bytes) (i : ℕ)
    → index s part ≡ some i
    → has_prefix s part ≡ true
    → (front : Bytes) × (s ≡ front ++ (part ++ drop (i + length part) s))
at_start s part i h now =
    let first : i ≡ 0 = some_inj (sym h ∙ index-prefix s part now) in
    ([], rw (first, zero_add (length part)) (has_prefix_sound s part now))

-- `Index` finds an occurrence.
pub index_sound :
    (s part : Bytes) (i : ℕ)
    → index s part ≡ some i
    → (front : Bytes) × (s ≡ front ++ (part ++ drop (i + length part) s))
index_sound [] part i h = at_start [] part i h (index-nil_inv part i h)
index_sound (c ∷ cs) part i h = elim (Bool-cases (has_prefix (c ∷ cs) part)) [
  | inl now ↦ at_start (c ∷ cs) part i h now
  | inr later ↦
      let (j, e, found) = index-cons_inv c cs part i later h in
      let (front, e') = index_sound cs part j found in
      (c ∷ front, rw (e, suc_add j (length part)) (ap (◌∷◌ c) e'))
]

-- Where a text has an occurrence, `Index` finds one, and what follows the one found ends with what
-- follows the other.
pub index-first :
    (front part rest : Bytes)
    → (i : ℕ) × (c : Bytes) × (index (front ++ (part ++ rest)) part ≡ some i)
      × (drop (i + length part) (front ++ (part ++ rest)) ≡ c ++ rest)
index-first [] part rest = (
  0,
  [],
  index-prefix (part ++ rest) part (has_prefix-append part rest),
  rw (zero_add (length part)) (drop_append part rest),
)
index-first (f ∷ fs) part rest = elim (Bool-cases (has_prefix (f ∷ (fs ++ (part ++ rest))) part)) [
  | inl now ↦
      let (c, e) =
        later_cut part ((f ∷ fs) ++ part) _ rest
          (sym (has_prefix_sound (f ∷ (fs ++ (part ++ rest))) part now)
            ∙ sym (append_assoc (f ∷ fs) part rest))
          (omega (arith, length-append (f ∷ fs) part)) in
      (0, c, index-prefix (f ∷ (fs ++ (part ++ rest))) part now, rw (zero_add (length part)) e)
  | inr later ↦
      let (i, c, found, e) = index-first fs part rest in
      (
        suc i,
        c,
        index-cons f (fs ++ (part ++ rest)) part i later found,
        rw (suc_add i (length part)) e,
      )
]
