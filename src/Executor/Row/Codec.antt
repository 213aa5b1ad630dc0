-- ===== src/Executor/Row/Codec.antt =====
-- `encodeRow` and `decodeRow` of executor/row.go.
-- The source's index `current` is the slice from there on, as in the catalog's decoder; the loop
-- index i goes with the columns from i on.
use my_sqlight.Prelude.{
  ℕ, ◌+◌, ◌/◌, Bool, true, false, List, [], ◌∷◌, ◌++◌, length, replicate, ltb, if◌then◌else◌,
  Result, ok, err, panic, ◌>>=◌,
}
use my_sqlight.Prelude.Int64.{to_u64, of_u64}
use my_sqlight.Bytes.{Bytes, put_be, put_text, take_be, take_bytes}
use my_sqlight.Catalog.Schema.{
  DataType, type_int, type_float, type_text, type_blob, Value, zero_value, null_value, ColumnDef,
}
use my_sqlight.Executor.Row.Bitmap.{set_bit, check_bit}

-- The messages of `decodeRow`: "row data too short to contain null bitmap", "row data truncated
-- reading int", and so on.
pub data RowError : Type 0 where
  short_bitmap truncated_int truncated_float : RowError
  truncated_text_length truncated_text truncated_blob_length truncated_blob : RowError

-- `int(math.Ceil(float64(n) / 8.0))`
unfoldable pub bitmap_size : ℕ → ℕ
bitmap_size n = (n + 7) / 8

unfoldable pub encode_cell : DataType → Value → Bytes
encode_cell type_int v = put_be 8 (to_u64 v.int_val)
encode_cell type_float v = put_be 8 v.float_val
encode_cell type_text v = put_text v.text_val
encode_cell type_blob v = put_text v.blob_val

-- The loop over the values: the bitmap and the output so far. `columns[i]` panics where there are
-- more values than columns and the value is not NULL.
unfoldable pub encode_cells :
    ℕ → List Value → List ColumnDef → Bytes → Bytes → Result RowError (Bytes × Bytes)
encode_cells i [] cs bitmap output = ok (bitmap, output)
encode_cells i (v ∷ vs) [] bitmap output =
    if v.is_null
    then (set_bit bitmap i true >>= λ bitmap'. encode_cells (i + 1) vs [] bitmap' output)
    else panic
encode_cells i (v ∷ vs) (c ∷ cs) bitmap output =
    if v.is_null
    then (set_bit bitmap i true >>= λ bitmap'. encode_cells (i + 1) vs cs bitmap' output)
    else encode_cells (i + 1) vs cs bitmap (output ++ encode_cell c.col_type v)

unfoldable pub encode_row : List Value → List ColumnDef → Result RowError Bytes
encode_row values columns = do
  (bitmap, output) ← encode_cells 0 values columns (replicate (bitmap_size (length columns)) 0) []
  ok (bitmap ++ output)

-- A length, then that many bytes, with an error for each of the two that is cut.
unfoldable pub decode_text : RowError → RowError → Bytes → Result RowError (Bytes × Bytes)
decode_text short_length short_text bs =
    if ltb (length bs) 4
    then err short_length
    else (take_be 4 bs >>= λ p. if ltb (length p.1) p.0 then err short_text else take_bytes p.0 p.1)

unfoldable pub decode_cell : DataType → Bytes → Result RowError (Value × Bytes)
decode_cell type_int bs =
    if ltb (length bs) 8
    then err truncated_int
    else (do (w, rest) ← take_be 8 bs; ok (record zero_value { int_val = of_u64 w }, rest))
decode_cell type_float bs =
    if ltb (length bs) 8
    then err truncated_float
    else (do (w, rest) ← take_be 8 bs; ok (record zero_value { float_val = w }, rest))
decode_cell type_text bs = do
  (s, rest) ← decode_text truncated_text_length truncated_text bs
  ok (record zero_value { text_val = s }, rest)
decode_cell type_blob bs = do
  (s, rest) ← decode_text truncated_blob_length truncated_blob bs
  ok (record zero_value { blob_val = s }, rest)

-- One column: NULL by its bit, or the next cell.
unfoldable pub decode_column : Bool → DataType → Bytes → Result RowError (Value × Bytes)
decode_column true t bs = ok (null_value, bs)
decode_column false t bs = decode_cell t bs

-- The loop over the columns: the values, and what is left of the data.
unfoldable pub decode_cells :
    ℕ → List ColumnDef → Bytes → Bytes → Result RowError (List Value × Bytes)
decode_cells i [] bitmap bs = ok ([], bs)
decode_cells i (c ∷ cs) bitmap bs = do
  null ← check_bit bitmap i
  (v, rest) ← decode_column null c.col_type bs
  (vs, rest') ← decode_cells (i + 1) cs bitmap rest
  ok (v ∷ vs, rest')

unfoldable pub decode_row : Bytes → List ColumnDef → Result RowError (List Value)
decode_row bs columns =
    let size = bitmap_size (length columns) in
    if ltb (length bs) size then err short_bitmap else (do
      (bitmap, rest) ← take_bytes size bs
      (values, _) ← decode_cells 0 columns bitmap rest
      ok values)
