-- ===== src/Tests/Row.antt =====
-- Tests of the row format (executor/row.go).
use my_sqlight.Executor.Row.RoundTrip.{decode_row-encode_row}
use my_sqlight.Executor.Row.Bitmap.{set_bit}
use my_sqlight.Executor.Row.Truncation.{decode_row_truncated, decode_row-ne-panic}
use my_sqlight.Prelude.Int64.{to_u64, negsuc}
use my_sqlight.Bytes.{put_be, Bytes}
use my_sqlight.Executor.Row.Codec.{
  bitmap_size, encode_cell, encode_cells, encode_row, decode_row, RowError,
}
use my_sqlight.Executor.Row.Marks.{stored_row, FitsRow}
use my_sqlight.Prelude.{
  refl, err, ok, panic, none, ◌≡◌, ◌≢◌, ◌++◌, false, ◌>>=◌, arith, ◌∷◌, [], List,
}
use my_sqlight.Catalog.Schema.{
  null_value, type_text, type_int, zero_value, DataType, Value, ColumnDef,
}

abbrev column : DataType → ColumnDef
column t = record { name = []; col_type = t; primary_key = false; not_null = false; default = none }

abbrev columns : List ColumnDef
columns = column type_int ∷ column type_text ∷ []

-- (-2, NULL)
abbrev values : List Value
values = record zero_value { int_val = negsuc 1 } ∷ null_value ∷ []

abbrev row : Bytes
row = 2 ∷ 255 ∷ 255 ∷ 255 ∷ 255 ∷ 255 ∷ 255 ∷ 255 ∷ 254 ∷ []

values-FitsRow : FitsRow values columns
values-FitsRow = (omega arith, (omega arith, tt))

decode_row-encode_row_example :
    (encode_row values columns >>= λ bs. decode_row (bs ++ []) columns)
    ≡ ok (stored_row values columns)
decode_row-encode_row_example = decode_row-encode_row values columns [] values-FitsRow

decode_row-ne-panic_example : decode_row (2 ∷ 255 ∷ []) columns ≢ panic
decode_row-ne-panic_example = decode_row-ne-panic (2 ∷ 255 ∷ []) columns

encode_row_test : encode_row values columns ≡ ok row
unfolding encode_row encode_cells encode_cell bitmap_size set_bit put_be to_u64
encode_row_test = refl

decode_row_truncated_example : (e : RowError) × (decode_row (2 ∷ 255 ∷ []) columns ≡ err e)
decode_row_truncated_example =
    decode_row_truncated values columns (2 ∷ 255 ∷ []) (255 ∷ 255 ∷ 255 ∷ 255 ∷ 255 ∷ 254 ∷ []) 255
      values-FitsRow encode_row_test
