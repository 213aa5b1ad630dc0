-- ===== src/Catalog/Stored.antt =====
-- Which definitions the encoding holds without loss, and what is kept of each value.
use my_sqlight.Prelude.{◌^◌, ◌<◌, Bool, true, false, Option, none, some, List, [], ◌∷◌, length}
use my_sqlight.Prelude.Int64.{IsInt64}
use my_sqlight.Bytes.{Bytes}
use my_sqlight.Catalog.Schema.{
  DataType, type_int, type_float, type_text, type_blob, Value, zero_value, null_value, ColumnDef,
  ForeignKeyDef, TableDef, IndexDef,
}

-- The length fits its four bytes.
abbrev pub IsText : Bytes → Type 0
IsText s = length s < 2 ^ 32

-- The value's field for its column's type is in range; a float64 has 64 bits.
abbrev pub FitsType : DataType → Value → Type 0
FitsType type_int v = IsInt64 v.int_val
FitsType type_float v = v.float_val < 2 ^ 64
FitsType type_text v = IsText v.text_val
FitsType type_blob v = IsText v.blob_val

-- Of a value only the field of its column's type is written, and nothing of a NULL.
unfoldable pub typed_value : DataType → Value → Value
typed_value type_int v = record zero_value { int_val = v.int_val }
typed_value type_float v = record zero_value { float_val = v.float_val }
typed_value type_text v = record zero_value { text_val = v.text_val }
typed_value type_blob v = record zero_value { blob_val = v.blob_val }

abbrev pub stored_of : Bool → DataType → Value → Value
stored_of true t v = null_value
stored_of false t v = typed_value t v

abbrev pub stored_value : DataType → Value → Value
stored_value t v = stored_of v.is_null t v

abbrev pub FitsDefault : DataType → Option Value → Type 0
FitsDefault t none = Unit
FitsDefault t (some v) = FitsType t v

abbrev pub stored_default : DataType → Option Value → Option Value
stored_default t none = none
stored_default t (some v) = some (stored_value t v)

pub record FitsColumn (c : ColumnDef) : Type 0 where
  pub name_fits : IsText c.name
  pub default_fits : FitsDefault c.col_type c.default

unfoldable pub stored_column : ColumnDef → ColumnDef
stored_column c = record c { default = stored_default c.col_type c.default }

pub record FitsForeignKey (k : ForeignKeyDef) : Type 0 where
  pub column_fits : IsText k.column_name
  pub table_fits : IsText k.ref_table
  pub ref_fits : IsText k.ref_column

abbrev pub All {ℓ κ} : {A : Type ℓ} → (A → Type κ) → List A → Type κ
All P [] = Unit
All P (x ∷ xs) = P x × All P xs

pub record FitsTable (d : TableDef) : Type 0 where
  pub name_fits : IsText d.name
  pub column_count_fits : length d.columns < 2 ^ 16
  pub columns_fit : All FitsColumn d.columns
  pub key_count_fits : length d.foreign_keys < 2 ^ 16
  pub keys_fit : All FitsForeignKey d.foreign_keys
  pub root_fits : d.root_page_id < 2 ^ 32

unfoldable pub stored_columns : List ColumnDef → List ColumnDef
stored_columns [] = []
stored_columns (c ∷ cs) = stored_column c ∷ stored_columns cs

unfoldable pub stored_table : TableDef → TableDef
stored_table d = record d { columns = stored_columns d.columns }

pub record FitsIndex (d : IndexDef) : Type 0 where
  pub name_fits : IsText d.name
  pub table_fits : IsText d.table_name
  pub column_fits : IsText d.column_name
  pub root_fits : d.root_page_id < 2 ^ 32
