-- ===== src/Executor/Row/Marks.antt =====
-- What `encodeRow` of executor/row.go arrives at: the bits of the NULLs, and the cells of the rest.
use my_sqlight.Prelude.{
  ℕ, suc, ◌+◌, ◌*◌, ◌/◌, ◌≤◌, ◌<◌, ◌≡◌, refl, ap, ◌∙◌, arith, true, false, List, [], ◌∷◌, ◌++◌,
  append-nil, append_assoc, length, length-replicate, replicate, ◌==◌, ◌&&◌, if◌then◌else◌,
  Bool-cases, inl, inr, ok,
}
use my_sqlight.Bytes.{Bytes, IsByte}
use my_sqlight.Catalog.Schema.{Value, ColumnDef}
use my_sqlight.Catalog.Stored.{All, FitsType, stored_value}
use my_sqlight.Executor.Row.Bitmap.{
  bit_at, mark_bit, set_bit-mark_bit, mark_bit-IsByte, length-mark_bit, bit_at-mark_bit,
  replicate-IsByte, bit_at-replicate,
}
use my_sqlight.Executor.Row.Codec.{RowError, bitmap_size, encode_cell, encode_cells}

-- Each value that is not NULL is in range for its column's type, and there is one for each column.
abbrev pub FitsRow : List Value → List ColumnDef → Type 0
FitsRow [] [] = Unit
FitsRow (v ∷ vs) (c ∷ cs) = FitsType c.col_type v × FitsRow vs cs
FitsRow [] (c ∷ cs) = ⊥
FitsRow (v ∷ vs) [] = ⊥

-- What the encoding keeps of each value: the field of its column's type, and nothing of a NULL.
unfoldable pub stored_row : List Value → List ColumnDef → List Value
stored_row [] cs = []
stored_row (v ∷ vs) [] = []
stored_row (v ∷ vs) (c ∷ cs) = stored_value c.col_type v ∷ stored_row vs cs

-- The bitmap and the cells that `encode_cells` arrives at, each on its own.
mark_value : ℕ → Value → Bytes → Bytes
mark_value i v bm = if v.is_null then mark_bit bm i else bm

pub mark : ℕ → List Value → Bytes → Bytes
mark i [] bm = bm
mark i (v ∷ vs) bm = mark (i + 1) vs (mark_value i v bm)

unfoldable pub cells : List Value → List ColumnDef → Bytes
cells [] cs = []
cells (v ∷ vs) [] = []
cells (v ∷ vs) (c ∷ cs) = (if v.is_null then [] else encode_cell c.col_type v) ++ cells vs cs

length-mark_value : (i : ℕ) (v : Value) (bm : Bytes) → length (mark_value i v bm) ≡ length bm
unfolding mark_value
length-mark_value i v bm = ground (arith, length-mark_bit bm i)

mark_value-IsByte :
    (i : ℕ) (v : Value) (bm : Bytes) → All IsByte bm → All IsByte (mark_value i v bm)
unfolding mark_value
mark_value-IsByte i v bm h = elim (Bool-cases v.is_null) [
  | inl null ↦ simp null (mark_bit-IsByte bm i h)
  | inr full ↦ simp full h
]

bit_at-mark_value :
    (i j : ℕ) (v : Value) (bm : Bytes)
    → All IsByte bm
    → i / 8 < length bm
    → bit_at (mark_value i v bm) j ≡ (if j == i && v.is_null then true else bit_at bm j)
unfolding mark_value
bit_at-mark_value i j v bm h lt = ground (arith, bit_at-mark_bit bm i j h lt)

pub length-mark : (i : ℕ) (vs : List Value) (bm : Bytes) → length (mark i vs bm) ≡ length bm
unfolding mark
length-mark i [] bm = refl
length-mark i (v ∷ vs) bm = length-mark (i + 1) vs (mark_value i v bm) ∙ length-mark_value i v bm

-- The values fit the bits of the bitmap from `i` on.
abbrev pub Room : ℕ → List Value → Bytes → Type 0
Room i vs bm = i + length vs ≤ 8 * length bm

pub encode_cells-mark :
    (i : ℕ) (vs : List Value) (cs : List ColumnDef) (bm out : Bytes)
    → FitsRow vs cs
    → Room i vs bm
    → encode_cells i vs cs bm out ≡ ok (mark i vs bm, out ++ cells vs cs)
unfolding encode_cells mark cells mark_value
encode_cells-mark i [] [] bm out h room = rw append-nil
encode_cells-mark i [] (c ∷ cs) bm out h room = absurd h
encode_cells-mark i (v ∷ vs) [] bm out h room = absurd h
encode_cells-mark i (v ∷ vs) (c ∷ cs) bm out h room = elim (Bool-cases v.is_null) [
  | inl null ↦
      simp (null, set_bit-mark_bit {E = RowError} bm i (omega arith))
        (encode_cells-mark (i + 1) vs cs (mark_bit bm i) out h.1
          (omega (arith, length-mark_bit bm i)))
  | inr full ↦
      simp (full, encode_cells-mark (i + 1) vs cs bm (out ++ cell) h.1 (omega arith), append_assoc)
]
  where
    cell : Bytes
    cell = encode_cell c.col_type v

-- The bits from `i` on tell which values are NULL.
abbrev pub Agrees : Bytes → ℕ → List Value → Type 0
Agrees bm i [] = Unit
Agrees bm i (v ∷ vs) = (bit_at bm i ≡ v.is_null) × Agrees bm (i + 1) vs

mark-before :
    (i j : ℕ) (vs : List Value) (bm : Bytes)
    → All IsByte bm
    → Room i vs bm
    → j < i
    → bit_at (mark i vs bm) j ≡ bit_at bm j
unfolding mark
mark-before i j [] bm h room lt = refl
mark-before i j (v ∷ vs) bm h room lt =
    mark-before (i + 1) j vs (mark_value i v bm) (mark_value-IsByte i v bm h)
      (omega (arith, length-mark_value i v bm)) (omega arith)
    ∙ ground (arith, bit_at-mark_value i j v bm h (omega arith))

mark-Agrees :
    (i : ℕ) (vs : List Value) (bm : Bytes)
    → All IsByte bm
    → Room i vs bm
    → ((j : ℕ) → i ≤ j → bit_at bm j ≡ false)
    → Agrees (mark i vs bm) i vs
unfolding mark
mark-Agrees i [] bm h room clear = tt
mark-Agrees i (v ∷ vs) bm h room clear = (
  mark-before (i + 1) i vs (mark_value i v bm) bytes room' (omega arith)
      ∙ ground (arith, bit_at-mark_value i i v bm h (omega arith), clear i),
  mark-Agrees (i + 1) vs (mark_value i v bm) bytes room'
      (λ j le. ground (arith, bit_at-mark_value i j v bm h (omega arith), clear j)),
)
  where
    bytes : All IsByte (mark_value i v bm)
    bytes = mark_value-IsByte i v bm h

    room' : Room (i + 1) vs (mark_value i v bm)
    room' = omega (arith, length-mark_value i v bm)

FitsRow-length : (vs : List Value) (cs : List ColumnDef) → FitsRow vs cs → length vs ≡ length cs
FitsRow-length [] [] h = refl
FitsRow-length [] (c ∷ cs) h = absurd h
FitsRow-length (v ∷ vs) [] h = absurd h
FitsRow-length (v ∷ vs) (c ∷ cs) h = ap suc (FitsRow-length vs cs h.1)

-- The empty bitmap of `encode_row`, and the room in it for a value for each column.
unfoldable pub blank : List ColumnDef → Bytes
blank cs = replicate (bitmap_size (length cs)) 0

pub blank-Room : (vs : List Value) (cs : List ColumnDef) → FitsRow vs cs → Room 0 vs (blank cs)
unfolding blank bitmap_size
blank-Room vs cs h =
    omega (arith, FitsRow-length vs cs h, length-replicate {A = ℕ} ((length cs + 7) / 8) 0)

pub length-header :
    (vs : List Value) (cs : List ColumnDef)
    → length (mark 0 vs (blank cs)) ≡ bitmap_size (length cs)
unfolding blank
length-header vs cs = length-mark 0 vs (blank cs) ∙ length-replicate (bitmap_size (length cs)) 0

pub blank-Agrees :
    (vs : List Value) (cs : List ColumnDef) → FitsRow vs cs → Agrees (mark 0 vs (blank cs)) 0 vs
unfolding blank
blank-Agrees vs cs h =
    mark-Agrees 0 vs (blank cs) (replicate-IsByte (bitmap_size (length cs))) (blank-Room vs cs h)
      (λ j _. bit_at-replicate (bitmap_size (length cs)) j)
