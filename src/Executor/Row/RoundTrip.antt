-- ===== src/Executor/Row/RoundTrip.antt =====
-- `decodeRow` takes back what `encodeRow` wrote.
use my_sqlight.Prelude.{
  err, ltb, Result, ℕ, ◌+◌, ◌%◌, ◌^◌, ◌≡◌, refl, arith, List, [], ◌∷◌, ◌++◌, append_assoc, length,
  if◌then◌else◌, Bool-cases, inl, inr, ok, ◌>>=◌,
}
use my_sqlight.Prelude.Int64.{to_u64, to_u64-lt, of_u64-to_u64}
use my_sqlight.Bytes.{take_bytes, Bytes, put_be, put_text}
use my_sqlight.Bytes.Laws.{
  enough-append, length-put_be, take_be-put_be, take_bytes-append, take_bytes-append_of,
}
use my_sqlight.Catalog.Schema.{
  DataType, type_int, type_float, type_text, type_blob, Value, ColumnDef,
}
use my_sqlight.Catalog.Stored.{FitsType, IsText, typed_value, stored_value}
use my_sqlight.Executor.Row.Bitmap.{check_bit-bit_at}
use my_sqlight.Executor.Row.Codec.{
  short_bitmap, bitmap_size, RowError, encode_cell, encode_row, decode_text, decode_cell,
  decode_column, decode_cells, decode_row,
}
use my_sqlight.Executor.Row.Marks.{
  FitsRow, stored_row, mark, cells, blank, Room, Agrees, encode_cells-mark, length-mark, blank-Room,
  length-header, blank-Agrees,
}

decode_text-put_text :
    (e₁ e₂ : RowError) (s rest : Bytes)
    → IsText s
    → decode_text e₁ e₂ (put_text s ++ rest) ≡ ok (s, rest)
unfolding decode_text put_text
decode_text-put_text e₁ e₂ s rest h = simp (
  append_assoc,
  fits,
  enough-append 4 (put_be 4 (length s)) (s ++ rest) (length-put_be 4 (length s)),
  take_be-put_be {E = RowError} 4 (length s) (s ++ rest) h,
  enough-append (length s) s rest refl,
  take_bytes-append {E = RowError} s rest,
)
  where
    fits : length s % 2 ^ 32 ≡ length s
    fits = omega arith

decode_cell-encode_cell :
    (t : DataType) (v : Value) (rest : Bytes)
    → FitsType t v
    → decode_cell t (encode_cell t v ++ rest) ≡ ok (typed_value t v, rest)
unfolding decode_cell encode_cell typed_value
decode_cell-encode_cell type_int v rest h = simp (
  enough-append 8 (put_be 8 (to_u64 v.int_val)) rest (length-put_be 8 (to_u64 v.int_val)),
  take_be-put_be {E = RowError} 8 (to_u64 v.int_val) rest (to_u64-lt v.int_val),
  of_u64-to_u64 v.int_val h,
)
decode_cell-encode_cell type_float v rest h = simp (
  enough-append 8 (put_be 8 v.float_val) rest (length-put_be 8 v.float_val),
  take_be-put_be {E = RowError} 8 v.float_val rest h,
)
decode_cell-encode_cell type_text v rest h = rw (decode_text-put_text _ _ v.text_val rest h)
decode_cell-encode_cell type_blob v rest h = rw (decode_text-put_text _ _ v.blob_val rest h)

decode_column-cell :
    (t : DataType) (v : Value) (rest : Bytes)
    → FitsType t v
    → decode_column v.is_null t ((if v.is_null then [] else encode_cell t v) ++ rest)
      ≡ ok (stored_value t v, rest)
unfolding decode_column
decode_column-cell t v rest h = elim (Bool-cases v.is_null) [
  | inl null ↦ simp null
  | inr full ↦ simp (full, decode_cell-encode_cell t v rest h)
]

decode_cells-cells :
    (i : ℕ) (vs : List Value) (cs : List ColumnDef) (bm rest : Bytes)
    → FitsRow vs cs
    → Room i vs bm
    → Agrees bm i vs
    → decode_cells i cs bm (cells vs cs ++ rest) ≡ ok (stored_row vs cs, rest)
unfolding decode_cells cells stored_row
decode_cells-cells i [] [] bm rest h room agree = refl
decode_cells-cells i [] (c ∷ cs) bm rest h room agree = absurd h
decode_cells-cells i (v ∷ vs) [] bm rest h room agree = absurd h
decode_cells-cells i (v ∷ vs) (c ∷ cs) bm rest h room agree = simp (
  check_bit-bit_at {E = RowError} bm i (omega arith),
  agree.0,
  append_assoc,
  decode_column-cell c.col_type v (cells vs cs ++ rest) h.0,
  decode_cells-cells (i + 1) vs cs bm rest h.1 (omega arith) agree.1,
)

-- What `encode_row` writes.
pub row_bytes : List Value → List ColumnDef → Bytes
row_bytes vs cs = mark 0 vs (blank cs) ++ cells vs cs

pub encode_row-row_bytes :
    (vs : List Value) (cs : List ColumnDef)
    → FitsRow vs cs
    → encode_row vs cs ≡ ok (row_bytes vs cs)
unfolding encode_row row_bytes blank
encode_row-row_bytes vs cs h = rw (encode_cells-mark 0 vs cs (blank cs) [] h (blank-Room vs cs h))

-- `decode_row` with what it leaves of the data.
abbrev pub read_row : List ColumnDef → Bytes → Result RowError (List Value × Bytes)
read_row cs bs =
    if ltb (length bs) (bitmap_size (length cs))
    then err short_bitmap
    else (take_bytes (bitmap_size (length cs)) bs >>= λ p. decode_cells 0 cs p.0 p.1)

pub decode_row-read_row :
    (bs : Bytes) (cs : List ColumnDef) → decode_row bs cs ≡ (read_row cs bs >>= λ p. ok p.0)
unfolding decode_row
decode_row-read_row bs cs = ground arith

pub read_row-row_bytes :
    (vs : List Value) (cs : List ColumnDef) (rest : Bytes)
    → FitsRow vs cs
    → read_row cs (row_bytes vs cs ++ rest) ≡ ok (stored_row vs cs, rest)
unfolding row_bytes
read_row-row_bytes vs cs rest h = simp (
  append_assoc,
  enough-append _ header (cells vs cs ++ rest) (length-header vs cs),
  take_bytes-append_of {E = RowError} _ header (cells vs cs ++ rest) (length-header vs cs),
  decode_cells-cells 0 vs cs header rest h
      (omega (arith, length-mark 0 vs (blank cs), blank-Room vs cs h)) (blank-Agrees vs cs h),
)
  where
    header : Bytes
    header = mark 0 vs (blank cs)

-- A row with one value in range for each column is encoded, without an error or a panic, and any
-- data that begins with its bytes is decoded to the row, each value reduced to what its column's
-- type keeps of it.
pub decode_row-encode_row :
    (vs : List Value) (cs : List ColumnDef) (rest : Bytes)
    → FitsRow vs cs
    → (encode_row vs cs >>= λ bs. decode_row (bs ++ rest) cs) ≡ ok (stored_row vs cs)
decode_row-encode_row vs cs rest h =
    rw (encode_row-row_bytes vs cs h, decode_row-read_row, read_row-row_bytes vs cs rest h)
