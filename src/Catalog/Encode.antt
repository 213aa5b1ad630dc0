-- ===== src/Catalog/Encode.antt =====
-- `encodeTableDef` and `encodeIndexDef` of catalog/encoding.go.
use my_sqlight.Prelude.{
  ℕ, ◌%◌, ◌^◌, Option, none, some, List, [], ◌∷◌, ◌++◌, length, bit_or, if◌then◌else◌,
}
use my_sqlight.Prelude.Int64.{to_u64}
use my_sqlight.Bytes.{Bytes, put_be, put_text}
use my_sqlight.Catalog.Schema.{
  DataType, type_int, type_float, type_text, type_blob, Value, ColumnDef, FkAction, fk_restrict,
  fk_cascade, fk_set_null, ForeignKeyDef, TableDef, IndexDef,
}

-- The type byte of a column.
unfoldable pub type_byte : DataType → ℕ
type_byte type_int = 0
type_byte type_float = 1
type_byte type_text = 2
type_byte type_blob = 3

-- bit 0: primary key, bit 1: not null, bit 2: there is a default.
unfoldable pub column_flags : ColumnDef → ℕ
column_flags c =
    let flags : ℕ = if c.primary_key then bit_or 0 0b001 else 0 in
    let flags' : ℕ = if c.not_null then bit_or flags 0b010 else flags in
    elim c.default [ none ↦ flags' | some _ ↦ bit_or flags' 0b100 ]

-- The bytes of a value that is not NULL, by the column's type.
unfoldable pub payload : DataType → Value → Bytes
payload type_int v = put_be 8 (to_u64 v.int_val)
payload type_float v = put_be 8 v.float_val
payload type_text v = put_text v.text_val
payload type_blob v = put_text v.blob_val

unfoldable pub encode_default : DataType → Option Value → Bytes
encode_default t none = []
encode_default t (some v) = if v.is_null then 1 ∷ [] else 0 ∷ payload t v

unfoldable pub encode_column : ColumnDef → Bytes
encode_column c =
    put_text c.name ++ (type_byte c.col_type ∷ column_flags c ∷ encode_default c.col_type c.default)

unfoldable pub encode_columns : List ColumnDef → Bytes
encode_columns [] = []
encode_columns (c ∷ cs) = encode_column c ++ encode_columns cs

unfoldable pub action_byte : FkAction → ℕ
action_byte fk_restrict = 0
action_byte fk_cascade = 1
action_byte fk_set_null = 2

unfoldable pub encode_foreign_key : ForeignKeyDef → Bytes
encode_foreign_key k =
    put_text k.column_name
    ++ (put_text k.ref_table
        ++ (put_text k.ref_column ++ (action_byte k.on_delete ∷ action_byte k.on_update ∷ [])))

unfoldable pub encode_foreign_keys : List ForeignKeyDef → Bytes
encode_foreign_keys [] = []
encode_foreign_keys (k ∷ ks) = encode_foreign_key k ++ encode_foreign_keys ks

unfoldable pub encode_table_def : TableDef → Bytes
encode_table_def def =
    0x01
    ∷ (put_text def.name
        ++ (put_be 2 (length def.columns % 2 ^ 16)
            ++ (encode_columns def.columns
                ++ (put_be 2 (length def.foreign_keys % 2 ^ 16)
                    ++ (encode_foreign_keys def.foreign_keys ++ put_be 4 def.root_page_id)))))

unfoldable pub encode_index_def : IndexDef → Bytes
encode_index_def def =
    0x02
    ∷ (put_text def.name
        ++ (put_text def.table_name
            ++ (put_text def.column_name
                ++ ((if def.unique then 1 else 0) ∷ put_be 4 def.root_page_id))))
