-- ===== src/Files.antt =====
-- What the program uses of os.File and io.ReadFull: a file is its bytes. An input or output error
-- of the operating system is not modelled, unless an operation takes it as an argument.
pub mod Slices
use my_sqlight.Prelude.{
  zero, suc, ◌≡◌, refl, sym, append-nil, take_whole, ◌≤◌, Bool-cases, inl, inr, ◌⊎◌, length-take,
  length-drop, drop_append, take_append, ℕ, ◌+◌, ◌-◌, ◌<◌, arith, [], ◌∷◌, ◌++◌, length,
  length-append, take, drop, replicate, ltb, ◌==◌, if◌then◌else◌,
}
use my_sqlight.Bytes.{Bytes}

-- `WriteAt(data, offset)`, and `Write` at the file's offset: a gap is filled with zero bytes.
unfoldable pub write_at : Bytes → ℕ → Bytes → Bytes
write_at file offset bs =
    take offset (file ++ replicate (offset - length file) 0)
    ++ (bs ++ drop (offset + length bs) file)

-- `ReadAt(buffer, offset)` of n bytes; at the end of the file there may be fewer.
unfoldable pub read_at : Bytes → ℕ → ℕ → Bytes
read_at file offset n = take n (drop offset file)

-- The outcome of `io.ReadFull`: `unread` is what the file still holds.
pub data ReadFull : Type 0 where
  full : Bytes → Bytes → ReadFull
  eof unexpected_eof : ReadFull

-- `io.ReadFull` of n bytes, where `bs` is the file from its offset on. A read that comes up short
-- has taken all that was there.
unfoldable pub read_full : ℕ → Bytes → ReadFull
read_full n bs =
    if ltb (length bs) n
    then (if length bs == 0 then eof else unexpected_eof)
    else full (take n bs) (drop n bs)

-- A read that finds its bytes.
pub read_full-append :
    (n : ℕ) (front rest : Bytes) → length front ≡ n → read_full n (front ++ rest) ≡ full front rest
unfolding read_full
read_full-append n front rest h =
    rw (sym h)
      (ground (arith, length-append front rest, take_append front rest, drop_append front rest))

-- A read that comes up short.
pub read_full-short :
    (n : ℕ) (b : ℕ) (bs : Bytes) → length (b ∷ bs) < n → read_full n (b ∷ bs) ≡ unexpected_eof
unfolding read_full
read_full-short n b bs h = ground arith

pub read_full-nil : (n : ℕ) → 0 < n → read_full n [] ≡ eof
unfolding read_full
read_full-nil n h = ground arith

-- The three outcomes, with the lengths of the parts.
pub read_full-cases :
    (n : ℕ) (bs : Bytes)
    → (read_full n bs ≡ eof)
      ⊎ ((read_full n bs ≡ unexpected_eof)
          ⊎ ((front : Bytes) × (rest : Bytes) × (read_full n bs ≡ full front rest)
              × (length front ≡ n)
              × (length rest + n ≡ length bs)))
unfolding read_full
read_full-cases n bs = elim (Bool-cases (ltb (length bs) n)) [
  | inl short ↦ elim (Bool-cases (length bs == 0)) [
    | inl none_left ↦ inl (rw (short, none_left))
    | inr some_left ↦ inr (inl (rw (short, some_left)))
  ]
  | inr long ↦
      let enough : n ≤ length bs = ground arith in
      inr (
        inr (
          take n bs,
          drop n bs,
          rw long,
          omega (arith, length-take n bs),
          omega (arith, length-drop n bs),
        ))
]

pub read_full_long :
    (n : ℕ) (bs : Bytes) → n ≤ length bs → read_full n bs ≡ full (take n bs) (drop n bs)
unfolding read_full
read_full_long n bs h = ground arith

drop_beyond : (n : ℕ) (bs : Bytes) → length bs ≤ n → drop n bs ≡ []
drop_beyond zero [] h = refl
drop_beyond zero (b ∷ bs) h = absurd (omega arith)
drop_beyond (suc n) [] h = refl
drop_beyond (suc n) (b ∷ bs) h = drop_beyond n bs (omega arith)

-- A write at the end of a file appends.
pub write_at_end :
    (file bs : Bytes) (offset : ℕ) → offset ≡ length file → write_at file offset bs ≡ file ++ bs
unfolding write_at
write_at_end file bs offset h = rw (
  no_gap,
  append-nil file,
  drop_beyond (offset + length bs) file (omega arith),
  append-nil bs,
  take_whole offset file (sym h),
)
  where
    no_gap : offset - length file ≡ 0
    no_gap = omega arith
