-- ===== src/Catalog/RoundTrip.antt =====
-- Decoding takes back what encoding wrote.
use my_sqlight.Prelude.{
  ℕ, ◌%◌, ◌^◌, ◌<◌, ◌≡◌, refl, arith, Bool, true, false, Option, none, some, List, [], ◌∷◌, ◌++◌,
  append_assoc, Bool-cases, inl, inr, length, ok, err, ◌==◌, if◌then◌else◌,
}
use my_sqlight.Prelude.Int64.{to_u64, to_u64-lt, of_u64-to_u64}
use my_sqlight.Bytes.{Bytes, take_byte, put_text}
use my_sqlight.Bytes.Laws.{take_be-put_be, take_text-put_text}
use my_sqlight.Catalog.Schema.{
  DataType, type_int, type_float, type_text, type_blob, Value, ColumnDef, FkAction, fk_restrict,
  fk_cascade, fk_set_null, ForeignKeyDef, TableDef, IndexDef,
}
use my_sqlight.Catalog.Encode.{
  type_byte, column_flags, payload, encode_default, encode_column, encode_columns, action_byte,
  encode_foreign_key, encode_foreign_keys, encode_table_def, encode_index_def,
}
use my_sqlight.Catalog.Decode.{
  not_table_def, not_index_def, get_bit, type_of_byte, take_payload, take_default, take_column,
  take_columns, action_of_byte, take_foreign_key, take_foreign_keys, take_table_def,
  decode_table_def, take_index_def, decode_index_def,
}
use my_sqlight.Catalog.Stored.{
  FitsType, FitsDefault, FitsColumn, FitsForeignKey, FitsTable, FitsIndex, All, typed_value,
  stored_default, stored_column, stored_columns, stored_table,
}

type_of_byte-type_byte : (t : DataType) → type_of_byte (type_byte t) ≡ t
unfolding type_of_byte type_byte
type_of_byte-type_byte type_int = refl
type_of_byte-type_byte type_float = refl
type_of_byte-type_byte type_text = refl
type_of_byte-type_byte type_blob = refl

action_of_byte-action_byte : (a : FkAction) → action_of_byte (action_byte a) ≡ a
unfolding action_of_byte action_byte
action_of_byte-action_byte fk_restrict = refl
action_of_byte-action_byte fk_cascade = refl
action_of_byte-action_byte fk_set_null = refl

-- The three flags of a column, read back from its flag byte.
abbrev has_default : ColumnDef → Bool
has_default c = elim c.default [ none ↦ false | some _ ↦ true ]

get_bit-column_flags :
    (c : ColumnDef)
    → (get_bit (column_flags c) 0 ≡ c.primary_key)
      × (get_bit (column_flags c) 1 ≡ c.not_null)
      × (get_bit (column_flags c) 2 ≡ has_default c)
unfolding get_bit column_flags
get_bit-column_flags c = ground arith

take_payload-payload :
    (t : DataType) (v : Value) (rest : Bytes)
    → FitsType t v
    → take_payload t (payload t v ++ rest) ≡ ok (typed_value t v, rest)
unfolding take_payload payload typed_value
take_payload-payload type_int v rest h =
    rw (take_be-put_be 8 (to_u64 v.int_val) rest (to_u64-lt v.int_val), of_u64-to_u64 v.int_val h)
take_payload-payload type_float v rest h = rw (take_be-put_be 8 v.float_val rest h)
take_payload-payload type_text v rest h = rw (take_text-put_text v.text_val rest h)
take_payload-payload type_blob v rest h = rw (take_text-put_text v.blob_val rest h)

take_default-encode_default :
    (t : DataType) (d : Option Value) (rest : Bytes)
    → FitsDefault t d
    → take_default (elim d [ none ↦ false | some _ ↦ true ]) t (encode_default t d ++ rest)
      ≡ ok (stored_default t d, rest)
unfolding take_default encode_default take_byte
take_default-encode_default t none rest h = refl
take_default-encode_default t (some v) rest h = elim (Bool-cases v.is_null) [
  | inl null ↦ simp null
  | inr full ↦ simp (full, take_payload-payload t v rest h)
]

take_column-encode_column :
    (c : ColumnDef) (rest : Bytes)
    → FitsColumn c
    → take_column (encode_column c ++ rest) ≡ ok (stored_column c, rest)
unfolding take_column encode_column stored_column take_byte
take_column-encode_column c rest h =
    let (primary, required, present) = get_bit-column_flags c in
    rw
      (
        append_assoc (put_text c.name) (type_byte c.col_type ∷ column_flags c ∷ values) rest,
        take_text-put_text c.name (type_byte c.col_type ∷ column_flags c ∷ (values ++ rest))
            h.name_fits,
      )
      (rw (type_of_byte-type_byte c.col_type, primary, required, present)
        (rw (take_default-encode_default c.col_type c.default rest h.default_fits)))
  where
    values : Bytes
    values = encode_default c.col_type c.default

take_columns-encode_columns :
    (cs : List ColumnDef) (rest : Bytes)
    → All FitsColumn cs
    → take_columns (length cs) (encode_columns cs ++ rest) ≡ ok (stored_columns cs, rest)
unfolding take_columns encode_columns stored_columns
take_columns-encode_columns [] rest h = refl
take_columns-encode_columns (c ∷ cs) rest (hc, hcs) =
    rw
      (
        append_assoc (encode_column c) (encode_columns cs) rest,
        take_column-encode_column c (encode_columns cs ++ rest) hc,
      )
      (rw (take_columns-encode_columns cs rest hcs))

take_foreign_key-encode_foreign_key :
    (k : ForeignKeyDef) (rest : Bytes)
    → FitsForeignKey k
    → take_foreign_key (encode_foreign_key k ++ rest) ≡ ok (k, rest)
unfolding take_foreign_key encode_foreign_key take_byte
take_foreign_key-encode_foreign_key k rest h = simp (
  append_assoc,
  take_text-put_text k.column_name _ h.column_fits,
  take_text-put_text k.ref_table _ h.table_fits,
  take_text-put_text k.ref_column _ h.ref_fits,
  action_of_byte-action_byte,
)

take_foreign_keys-encode_foreign_keys :
    (ks : List ForeignKeyDef) (rest : Bytes)
    → All FitsForeignKey ks
    → take_foreign_keys (length ks) (encode_foreign_keys ks ++ rest) ≡ ok (ks, rest)
unfolding take_foreign_keys encode_foreign_keys
take_foreign_keys-encode_foreign_keys [] rest h = refl
take_foreign_keys-encode_foreign_keys (k ∷ ks) rest (hk, hks) =
    rw
      (
        append_assoc (encode_foreign_key k) (encode_foreign_keys ks) rest,
        take_foreign_key-encode_foreign_key k (encode_foreign_keys ks ++ rest) hk,
      )
      (rw (take_foreign_keys-encode_foreign_keys ks rest hks))

count_fits : (n : ℕ) → n < 2 ^ 16 → n % 2 ^ 16 ≡ n
count_fits n h = omega arith

-- A table definition within the encoding's bounds is decoded to itself, each default value to what
-- its column's type keeps of it; bytes behind the encoding are not looked at.
pub decode_table_def-encode_table_def :
    (d : TableDef) (rest : Bytes)
    → FitsTable d
    → decode_table_def (encode_table_def d ++ rest) ≡ ok (stored_table d)
unfolding decode_table_def take_table_def encode_table_def stored_table take_byte
decode_table_def-encode_table_def d rest h = simp (
  append_assoc,
  count_fits (length d.columns) h.column_count_fits,
  count_fits (length d.foreign_keys) h.key_count_fits,
  take_text-put_text d.name _ h.name_fits,
  take_be-put_be 2 (length d.columns) _ h.column_count_fits,
  take_columns-encode_columns d.columns _ h.columns_fit,
  take_be-put_be 2 (length d.foreign_keys) _ h.key_count_fits,
  take_foreign_keys-encode_foreign_keys d.foreign_keys _ h.keys_fit,
  take_be-put_be 4 d.root_page_id _ h.root_fits,
)

unique_flag : (b : Bool) → ((if b then 1 else 0) == 1) ≡ b
unique_flag true = refl
unique_flag false = refl

-- An index definition within the encoding's bounds is decoded to itself; bytes behind the encoding
-- are not looked at.
pub decode_index_def-encode_index_def :
    (d : IndexDef) (rest : Bytes)
    → FitsIndex d
    → decode_index_def (encode_index_def d ++ rest) ≡ ok d
unfolding decode_index_def take_index_def encode_index_def take_byte
decode_index_def-encode_index_def d rest h = simp (
  append_assoc,
  take_text-put_text d.name _ h.name_fits,
  take_text-put_text d.table_name _ h.table_fits,
  take_text-put_text d.column_name _ h.column_fits,
  take_be-put_be 4 d.root_page_id _ h.root_fits,
  unique_flag d.unique,
)

-- The kind byte keeps the two encodings apart: each decoder refuses, with its error and without a
-- panic, whatever the other encoder writes.
pub decode_kind :
    (t : TableDef) (i : IndexDef) (rest : Bytes)
    → (decode_table_def (encode_index_def i ++ rest) ≡ err not_table_def)
      × (decode_index_def (encode_table_def t ++ rest) ≡ err not_index_def)
unfolding decode_table_def decode_index_def encode_table_def encode_index_def take_byte
decode_kind t i rest = (refl, refl)
