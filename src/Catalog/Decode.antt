-- ===== src/Catalog/Decode.antt =====
-- `decodeTableDef`, `decodeIndexDef` and `GetBit` of catalog/encoding.go.
-- The source keeps an index `current`; here each read takes the slice from `current` on and
-- returns the slice from the new `current` on. A slice's capacity is taken to be its length.
use my_sqlight.Prelude.{
  ℕ, zero, suc, ◌/◌, ◌%◌, ◌^◌, Bool, true, false, Option, none, some, List, [], ◌∷◌, ◌==◌,
  if◌then◌else◌, Result, ok, err, ◌>>=◌,
}
use my_sqlight.Prelude.Int64.{of_u64}
use my_sqlight.Bytes.{Bytes, take_byte, take_be, take_text}
use my_sqlight.Catalog.Schema.{
  DataType, type_int, type_float, type_text, type_blob, Value, zero_value, null_value, ColumnDef,
  FkAction, fk_restrict, fk_cascade, fk_set_null, ForeignKeyDef, TableDef, IndexDef,
}

pub data DecodeError : Type 0 where
  not_table_def not_index_def : DecodeError

-- The bit at a position, counted from the right.
unfoldable pub get_bit : ℕ → ℕ → Bool
get_bit b position = let bit = b / 2 ^ position % 2 in if bit == 0 then false else true

-- An unknown byte leaves the zero value, TypeInt.
unfoldable pub type_of_byte : ℕ → DataType
type_of_byte b =
    if b == 0
    then type_int
    else if b == 1
    then type_float
    else if b == 2
    then type_text
    else if b == 3
    then type_blob
    else type_int

unfoldable pub take_payload : DataType → Bytes → Result DecodeError (Value × Bytes)
take_payload type_int bs = do
  (w, rest) ← take_be 8 bs
  ok (record zero_value { int_val = of_u64 w }, rest)
take_payload type_float bs = do
  (w, rest) ← take_be 8 bs
  ok (record zero_value { float_val = w }, rest)
take_payload type_text bs = do
  (s, rest) ← take_text bs
  ok (record zero_value { text_val = s }, rest)
take_payload type_blob bs = do
  (s, rest) ← take_text bs
  ok (record zero_value { blob_val = s }, rest)

unfoldable pub take_default : Bool → DataType → Bytes → Result DecodeError (Option Value × Bytes)
take_default false t bs = ok (none, bs)
take_default true t bs = do
  (is_null, rest) ← take_byte bs
  if is_null == 0
      then (do (v, rest') ← take_payload t rest; ok (some v, rest'))
      else ok (some null_value, rest)

unfoldable pub take_column : Bytes → Result DecodeError (ColumnDef × Bytes)
take_column bs = do
  (column_name, bs₁) ← take_text bs
  (type_code, bs₂) ← take_byte bs₁
  (flags, bs₃) ← take_byte bs₂
  (column_default, bs₄) ← take_default (get_bit flags 2) (type_of_byte type_code) bs₃
  ok (
    record {
      name = column_name;
      col_type = type_of_byte type_code;
      primary_key = get_bit flags 0;
      not_null = get_bit flags 1;
      default = column_default;
    },
    bs₄,
  )

unfoldable pub take_columns : ℕ → Bytes → Result DecodeError (List ColumnDef × Bytes)
take_columns zero bs = ok ([], bs)
take_columns (suc n) bs = do
  (c, rest) ← take_column bs
  (cs, rest') ← take_columns n rest
  ok (c ∷ cs, rest')

-- An unknown byte leaves the zero value, FKRestrict.
unfoldable pub action_of_byte : ℕ → FkAction
action_of_byte b =
    if b == 0
    then fk_restrict
    else if b == 1
    then fk_cascade
    else if b == 2
    then fk_set_null
    else fk_restrict

unfoldable pub take_foreign_key : Bytes → Result DecodeError (ForeignKeyDef × Bytes)
take_foreign_key bs = do
  (c, bs₁) ← take_text bs
  (t, bs₂) ← take_text bs₁
  (r, bs₃) ← take_text bs₂
  (d, bs₄) ← take_byte bs₃
  (u, bs₅) ← take_byte bs₄
  ok (
    record {
      column_name = c;
      ref_table = t;
      ref_column = r;
      on_delete = action_of_byte d;
      on_update = action_of_byte u;
    },
    bs₅,
  )

unfoldable pub take_foreign_keys : ℕ → Bytes → Result DecodeError (List ForeignKeyDef × Bytes)
take_foreign_keys zero bs = ok ([], bs)
take_foreign_keys (suc n) bs = do
  (k, rest) ← take_foreign_key bs
  (ks, rest') ← take_foreign_keys n rest
  ok (k ∷ ks, rest')

-- What follows the kind byte.
unfoldable pub take_table_def : Bytes → Result DecodeError TableDef
take_table_def bs = do
  (table_name, bs₁) ← take_text bs
  (column_count, bs₂) ← take_be 2 bs₁
  (cs, bs₃) ← take_columns column_count bs₂
  (key_count, bs₄) ← take_be 2 bs₃
  (ks, bs₅) ← take_foreign_keys key_count bs₄
  (root, _) ← take_be 4 bs₅
  ok (record { name = table_name; columns = cs; foreign_keys = ks; root_page_id = root })

unfoldable pub decode_table_def : Bytes → Result DecodeError TableDef
decode_table_def bs = do
  (kind, rest) ← take_byte bs
  if kind == 0x01 then take_table_def rest else err not_table_def

-- Any byte but 1 leaves `unique` false.
unfoldable pub take_index_def : Bytes → Result DecodeError IndexDef
take_index_def bs = do
  (n, bs₁) ← take_text bs
  (t, bs₂) ← take_text bs₁
  (c, bs₃) ← take_text bs₂
  (u, bs₄) ← take_byte bs₃
  (root, _) ← take_be 4 bs₄
  ok (record { name = n; table_name = t; column_name = c; unique = u == 1; root_page_id = root })

unfoldable pub decode_index_def : Bytes → Result DecodeError IndexDef
decode_index_def bs = do
  (kind, rest) ← take_byte bs
  if kind == 0x02 then take_index_def rest else err not_index_def
