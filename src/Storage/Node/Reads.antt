-- ===== src/Storage/Node/Reads.antt =====
-- Accesses that stay inside a page.
use my_sqlight.Prelude.{
  length-drop, length-take, ℕ, zero, suc, ◌+◌, ◌-◌, ◌^◌, ◌<◌, ◌≤◌, ◌≡◌, ◌∙◌, refl, sym, ap, arith,
  [], ◌∷◌, length, take, drop, ok,
}
use my_sqlight.Bytes.{Bytes, put_be}
use my_sqlight.Bytes.Laws.{from_be-put_be}
use my_sqlight.Files.{read_at, write_at}
use my_sqlight.Files.Slices.{length-write_at, drop_twice, take-take}
use my_sqlight.Storage.Node.{slice, copy_at, get_number, put_number}

take_more : (n : ℕ) (bs : Bytes) → length bs ≤ n → take n bs ≡ bs
take_more zero [] h = refl
take_more zero (b ∷ bs) h = absurd (omega arith)
take_more (suc n) [] h = refl
take_more (suc n) (b ∷ bs) h = ap (◌∷◌ b) (take_more n bs (omega arith))

take_nil : (n : ℕ) → take {A = ℕ} n [] ≡ []
take_nil zero = refl
take_nil (suc n) = refl

drop-take : (i m : ℕ) (bs : Bytes) → drop i (take m bs) ≡ take (m - i) (drop i bs)
drop-take zero m bs = ap (λ n. take n bs) (omega arith)
drop-take (suc i) zero bs =
    let none_left : 0 ≡ 0 - suc i = omega arith in ap (λ n. take n (drop (suc i) bs)) none_left
drop-take (suc i) (suc m) [] = sym (take_nil (suc m - suc i))
drop-take (suc i) (suc m) (b ∷ bs) = drop-take i m bs ∙ ap (λ n. take n (drop i bs)) (omega arith)

-- A read inside a read.
pub read_at-read_at :
    (page : Bytes) (o m i n : ℕ)
    → i + n ≤ m
    → read_at (read_at page o m) i n ≡ read_at page (o + i) n
unfolding read_at
read_at-read_at page o m i n h =
    ap (take n) (drop-take i m (drop o page))
    ∙ take-take n (m - i) (drop i (drop o page)) (omega arith)
    ∙ ap (take n) (drop_twice o i page)

-- A page of 4096 bytes stays one where the write is inside it.
pub length-write_inside :
    (page bs : Bytes) (o : ℕ)
    → length page ≡ 4096
    → o + length bs ≤ 4096
    → length (write_at page o bs) ≡ 4096
length-write_inside page bs o size h = omega (arith, length-write_at page bs o)

pub slice_inside :
    (page : Bytes) (low high : ℕ)
    → length page ≡ 4096
    → low ≤ high
    → high ≤ 4096
    → slice page low high ≡ ok (read_at page low (high - low))
unfolding slice
slice_inside page low high size h k = ground arith

pub copy_at_inside :
    (page bs : Bytes) (o : ℕ)
    → length page ≡ 4096
    → o + length bs ≤ 4096
    → copy_at page o bs ≡ ok (write_at page o bs)
unfolding copy_at
copy_at_inside page bs o size h = ground (arith, take_more (length page - o) bs (omega arith))

pub get_number_inside :
    (n : ℕ) (page : Bytes) (o v : ℕ)
    → length page ≡ 4096
    → o + n ≤ 4096
    → v < 256 ^ n
    → read_at page o n ≡ put_be n v
    → get_number n page o ≡ ok v
unfolding get_number
get_number_inside n page o v size h fits read = ground (arith, from_be-put_be n v fits)

pub put_number_inside :
    (n : ℕ) (page : Bytes) (o v : ℕ)
    → length page ≡ 4096
    → o + n ≤ 4096
    → put_number n page o v ≡ ok (write_at page o (put_be n v))
unfolding put_number
put_number_inside n page o v size h = ground arith

pub length-read_inside :
    (page : Bytes) (o n : ℕ) → length page ≡ 4096 → o + n ≤ 4096 → length (read_at page o n) ≡ n
unfolding read_at
length-read_inside page o n size h = omega (arith, length-take n (drop o page), length-drop o page)
