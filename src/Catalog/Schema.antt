-- ===== src/Catalog/Schema.antt =====
-- The types of catalog/schema.go and catalog/catalog.go.
use my_sqlight.Prelude.{ℕ, Bool, true, false, Option, List, []}
use my_sqlight.Prelude.Int64.{ℤ, pos}
use my_sqlight.Bytes.{Bytes}

pub data DataType : Type 0 where
  type_int type_float type_text type_blob : DataType

-- A float64 is its 64 bits, so `math.Float64bits` and `math.Float64frombits` are the identity.
abbrev pub Float64 : Type 0
Float64 = ℕ

pub record Value : Type 0 where
  pub is_null : Bool
  pub int_val : ℤ
  pub float_val : Float64
  pub text_val : Bytes
  pub blob_val : Bytes

-- Go's zero value `Value{}`, and `Value{IsNull: true}`.
abbrev pub zero_value : Value
zero_value = record {
  is_null = false;
  int_val = pos 0;
  float_val = 0;
  text_val = [];
  blob_val = [];
}

abbrev pub null_value : Value
null_value = record { is_null = true; int_val = pos 0; float_val = 0; text_val = []; blob_val = [] }

pub record ColumnDef : Type 0 where
  pub name : Bytes
  pub col_type : DataType
  pub primary_key : Bool
  pub not_null : Bool
  pub default : Option Value

pub data FkAction : Type 0 where
  fk_restrict fk_cascade fk_set_null : FkAction

pub record ForeignKeyDef : Type 0 where
  pub column_name : Bytes
  pub ref_table : Bytes
  pub ref_column : Bytes
  pub on_delete : FkAction
  pub on_update : FkAction

pub record TableDef : Type 0 where
  pub name : Bytes
  pub columns : List ColumnDef
  pub foreign_keys : List ForeignKeyDef
  pub root_page_id : ℕ

pub record IndexDef : Type 0 where
  pub name : Bytes
  pub table_name : Bytes
  pub column_name : Bytes
  pub unique : Bool
  pub root_page_id : ℕ
