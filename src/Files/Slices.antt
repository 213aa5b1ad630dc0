-- ===== src/Files/Slices.antt =====
-- Reading a file back after a write: the bytes written, and those elsewhere.
use my_sqlight.Prelude.{
  [], ap, arith, drop_past, inl, inr, length-replicate, max, refl, suc, sym, take-append-drop,
  take-append_le, take-append_of, zero, ℕ, ◌++◌, ◌+◌, ◌-◌, ◌∙◌, ◌≡◌, ◌≤◌, ◌⊎◌,
}
use my_sqlight.Bytes.{Bytes}
use my_sqlight.Files.{
  length-drop, length-append, ◌∷◌, length-take, sym, replicate, take, drop, length, write_at,
  read_at,
}

-- Two stretches of a file without a byte in common: the first one begins at `o` and has `n` bytes.
abbrev pub Apart : ℕ → ℕ → ℕ → ℕ → Type 0
Apart o n p m = (o + n ≤ p) ⊎ (p + m ≤ o)

read_at-append :
    (o n : ℕ) (front rest : Bytes)
    → o + n ≤ length front
    → read_at (front ++ rest) o n ≡ read_at front o n
unfolding read_at
read_at-append zero n front rest h = take-append_le n front rest (omega arith)
read_at-append (suc o) n [] rest h = absurd (omega arith)
read_at-append (suc o) n (b ∷ front) rest h = read_at-append o n front rest (omega arith)

read_at-append_past :
    (o n k : ℕ) (front rest : Bytes)
    → o ≡ length front + k
    → read_at (front ++ rest) o n ≡ read_at rest k n
unfolding read_at
read_at-append_past o n k front rest h = rw (h, drop_past k front rest)

drop_nil : (k : ℕ) → drop {A = ℕ} k [] ≡ []
drop_nil zero = refl
drop_nil (suc k) = refl

pub drop_twice : (m k : ℕ) (bs : Bytes) → drop k (drop m bs) ≡ drop (m + k) bs
drop_twice zero k bs = ap (λ n. drop n bs) (omega arith)
drop_twice (suc m) k [] = drop_nil k ∙ sym (drop_nil (suc m + k))
drop_twice (suc m) k (b ∷ bs) = drop_twice m k bs ∙ rw suc_add
  where
    suc_add : suc m + k ≡ suc (m + k)
    suc_add = omega arith

pub read_at-take :
    (o n m : ℕ) (bs : Bytes) → o + n ≤ m → m ≤ length bs → read_at (take m bs) o n ≡ read_at bs o n
read_at-take o n m bs h k =
    sym (read_at-append o n (take m bs) (drop m bs) (omega (arith, length-take m bs)))
    ∙ ap (λ xs. read_at xs o n) (take-append-drop m bs)

-- What stands before the written bytes.
abbrev before : Bytes → ℕ → Bytes
before file offset = take offset (file ++ replicate (offset - length file) 0)

padded : (file : Bytes) (offset : ℕ) → offset ≤ length (file ++ replicate (offset - length file) 0)
padded file offset = omega (
  arith,
  length-append file (replicate (offset - length file) 0),
  length-replicate {A = ℕ} (offset - length file) 0,
)

length-before : (file : Bytes) (offset : ℕ) → length (before file offset) ≡ offset
length-before file offset =
    omega
      (arith, length-take offset (file ++ replicate (offset - length file) 0), padded file offset)

pub length-write_at :
    (file bs : Bytes) (offset : ℕ)
    → length (write_at file offset bs) ≡ max (length file) (offset + length bs)
unfolding write_at
length-write_at file bs offset = omega (
  arith,
  length-append (before file offset) (bs ++ drop (offset + length bs) file),
  length-append bs (drop (offset + length bs) file),
  length-before file offset,
  length-drop (offset + length bs) file,
)

-- The bytes written are read back.
pub read_at-write_at :
    (file bs : Bytes) (offset n : ℕ)
    → n ≡ length bs
    → read_at (write_at file offset bs) offset n ≡ bs
unfolding write_at read_at
read_at-write_at file bs offset n h =
    read_at-append_past offset n 0 (before file offset) _ (omega (arith, length-before file offset))
    ∙ take-append_of n bs (drop (offset + length bs) file) (sym h)

-- What was in the file elsewhere is there after the write.
pub read_at-write_at-Apart :
    (file bs : Bytes) (offset o n : ℕ)
    → Apart o n offset (length bs)
    → o + n ≤ length file
    → read_at (write_at file offset bs) o n ≡ read_at file o n
unfolding write_at read_at
read_at-write_at-Apart file bs offset o n (inl front) h =
    read_at-append o n (before file offset) _ (omega (arith, length-before file offset))
    ∙ read_at-take o n offset _ front (padded file offset)
    ∙ read_at-append o n file _ h
read_at-write_at-Apart file bs offset o n (inr back) h =
    read_at-append_past o n (o - offset) (before file offset) _
      (omega (arith, length-before file offset))
    ∙ read_at-append_past (o - offset) n (o - offset - length bs) bs _ (omega arith)
    ∙ there
  where
    there : read_at (drop (offset + length bs) file) (o - offset - length bs) n ≡ read_at file o n
    there = ap (take n) (
        drop_twice (offset + length bs) (o - offset - length bs) file
        ∙ ap (λ k. drop k file) (omega arith))

pub take-take : (n m : ℕ) (bs : Bytes) → n ≤ m → take n (take m bs) ≡ take n bs
take-take zero m bs h = refl
take-take (suc n) zero bs h = absurd (omega arith)
take-take (suc n) (suc m) [] h = refl
take-take (suc n) (suc m) (b ∷ bs) h = ap (◌∷◌ b) (take-take n m bs (omega arith))

-- A read of fewer bytes.
pub read_at-prefix :
    (file : Bytes) (o n m : ℕ) → n ≤ m → take n (read_at file o m) ≡ read_at file o n
unfolding read_at
read_at-prefix file o n m h = take-take n m (drop o file) h

pub read_at_front : (file : Bytes) (n : ℕ) → read_at file 0 n ≡ take n file
unfolding read_at
read_at_front file n = refl
