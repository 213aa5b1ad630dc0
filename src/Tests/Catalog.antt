-- ===== src/Tests/Catalog.antt =====
-- Tests of the catalog's encoding (catalog/encoding.go).
use my_sqlight.Catalog.RoundTrip.{
  decode_kind, decode_table_def-encode_table_def, decode_index_def-encode_index_def,
}
use my_sqlight.Prelude.Int64.{negsuc}
use my_sqlight.Catalog.Encode.{encode_index_def, encode_table_def}
use my_sqlight.Catalog.Decode.{not_index_def, not_table_def, decode_table_def, decode_index_def}
use my_sqlight.Catalog.Stored.{stored_table, FitsTable, FitsIndex}
use my_sqlight.Bytes.{Bytes}
use my_sqlight.Prelude.{err, ok, ◌≡◌, ◌++◌, none, some, false, arith, [], ◌∷◌, true}
use my_sqlight.Catalog.Schema.{
  zero_value, fk_set_null, fk_cascade, type_int, type_text, ColumnDef, ForeignKeyDef, TableDef,
  IndexDef,
}

-- users(id INT PRIMARY KEY DEFAULT 5, of TEXT) with a foreign key from `of` to users(id)
abbrev id : Bytes
id = 105 ∷ 100 ∷ []

abbrev users : Bytes
users = 117 ∷ 115 ∷ 101 ∷ 114 ∷ 115 ∷ []

abbrev id_column : ColumnDef
id_column = record {
  name = id;
  col_type = type_int;
  primary_key = true;
  not_null = false;
  default = some (record zero_value { int_val = negsuc 4 });
}

abbrev text_column : ColumnDef
text_column = record {
  name = users;
  col_type = type_text;
  primary_key = false;
  not_null = true;
  default = none;
}

abbrev users_key : ForeignKeyDef
users_key = record {
  column_name = users;
  ref_table = users;
  ref_column = id;
  on_delete = fk_cascade;
  on_update = fk_set_null;
}

abbrev users_table : TableDef
users_table = record {
  name = users;
  columns = id_column ∷ text_column ∷ [];
  foreign_keys = users_key ∷ [];
  root_page_id = 300;
}

abbrev users_index : IndexDef
users_index = record {
  name = id;
  table_name = users;
  column_name = id;
  unique = true;
  root_page_id = 7;
}

users_table-FitsTable : FitsTable users_table
users_table-FitsTable = record {
  name_fits = omega arith;
  column_count_fits = omega arith;
  columns_fit = (
    record { name_fits = omega arith; default_fits = omega arith },
    (record { name_fits = omega arith; default_fits = tt }, tt),
  );
  key_count_fits = omega arith;
  keys_fit =
      (record { column_fits = omega arith; table_fits = omega arith; ref_fits = omega arith }, tt);
  root_fits = omega arith;
}

users_index-FitsIndex : FitsIndex users_index
users_index-FitsIndex = record {
  name_fits = omega arith;
  table_fits = omega arith;
  column_fits = omega arith;
  root_fits = omega arith;
}

decode_table_def-encode_table_def_example :
    decode_table_def (encode_table_def users_table ++ (9 ∷ [])) ≡ ok (stored_table users_table)
decode_table_def-encode_table_def_example =
    decode_table_def-encode_table_def users_table (9 ∷ []) users_table-FitsTable

decode_index_def-encode_index_def_example :
    decode_index_def (encode_index_def users_index ++ (9 ∷ [])) ≡ ok users_index
decode_index_def-encode_index_def_example =
    decode_index_def-encode_index_def users_index (9 ∷ []) users_index-FitsIndex

decode_kind_example :
    (decode_table_def (encode_index_def users_index ++ []) ≡ err not_table_def)
    × (decode_index_def (encode_table_def users_table ++ []) ≡ err not_index_def)
decode_kind_example = decode_kind users_table users_index []
