-- ===== src/Executor/Eval.antt =====
-- `evalExpr` of executor/filter.go: an expression evaluated against one row.
pub mod Total
use my_sqlight.Prelude.{
  ltb, zero, ◌++◌, ◌-◌, length, ◌&&◌, ◌||◌, not, if◌then◌else◌, ◌==◌, List, Bool, Option, ℕ, suc,
  ◌+◌, [], ◌∷◌, true, false, some, none, Result, ok, err, panic, ◌>>=◌,
}
use my_sqlight.Prelude.Int64.{
  div_int, mod_int, is_zero, mul_int, sub_int, neg_int, add_int, ℤ, pos, negsuc,
}
use my_sqlight.Bytes.{bytes_ltb, Bytes}
use my_sqlight.Maps.{bytes_beq}
use my_sqlight.Catalog.Schema.{
  Value, ColumnDef, Float64, DataType, type_int, type_float, type_text, type_blob,
}
use my_sqlight.Parser.Ast.{
  BinaryOp, op_eq, op_ne, op_lt, op_gt, op_le, op_ge, op_add, op_sub, op_mul, op_div, op_mod,
  op_and, op_or, op_like, op_other, UnaryOp, op_neg, op_not, unary_other, LiteralKind, kind_integer,
  kind_float, kind_string, kind_null, kind_other, Expr, literal, column_ref, binary, unary,
  func_call, star_expr,
}
use my_sqlight.Floats.{Floats}
use my_sqlight.Strconv.{parse_int, format_int}
use my_sqlight.Executor.Like.{like_match}

-- What an expression yields: Go's nil, bool, int64, float64, string or []byte in an interface.
pub data Datum : Type 0 where
  nil_datum : Datum
  bool_datum : Bool → Datum
  int_datum : ℤ → Datum
  float_datum : Float64 → Datum
  text_datum : Bytes → Datum
  blob_datum : Bytes → Datum

pub data EvalError : Type 0 where
  invalid_integer invalid_float unknown_kind : Bytes → EvalError
  column_out_of_range : EvalError
  column_not_found : Bytes → EvalError
  not_boolean minus_numeric and_boolean or_boolean like_string : EvalError
  division_by_zero numeric_operands mod_integer modulo_by_zero : EvalError
  unknown_binary : BinaryOp → EvalError
  unknown_unary : Bytes → EvalError
  aggregate_invalid : Bytes → EvalError
  star_invalid : EvalError

abbrev pub Eval : Type 0
Eval = Result EvalError Datum

abbrev pub Row : Type 0
Row = List Value

-- The case of a column's type in the loop over the columns.
unfoldable pub typed_value : DataType → Value → Datum
typed_value type_int v = int_datum v.int_val
typed_value type_float v = float_datum v.float_val
typed_value type_text v = text_datum v.text_val
typed_value type_blob v = blob_datum v.blob_val

unfoldable pub cell : DataType → Row → Eval
cell t [] = err column_out_of_range
cell t (v ∷ row) = ok (if v.is_null then nil_datum else typed_value t v)

abbrev pub rest_of : Row → Row
rest_of [] = []
rest_of (v ∷ row) = row

-- The first column of the name decides; the row is what is left of it at that index.
unfoldable pub column_value : Bytes → List ColumnDef → Row → Eval
column_value name [] row = err (column_not_found name)
column_value name (c ∷ columns) row =
    let later = column_value name columns (rest_of row) in
    if bytes_beq c.name name then cell c.col_type row else later

abbrev pub true_text : Bytes
true_text = 116 ∷ 114 ∷ 117 ∷ 101 ∷ []

abbrev pub false_text : Bytes
false_text = 102 ∷ 97 ∷ 108 ∷ 115 ∷ 101 ∷ []

-- The bytes of a blob as `%v` lists them: `[1 2 3]`.
unfoldable pub spaced_bytes : Bytes → Bytes
spaced_bytes [] = 93 ∷ []
spaced_bytes (b ∷ bs) = 32 ∷ (format_int (pos b) ++ spaced_bytes bs)

unfoldable pub print_blob : Bytes → Bytes
print_blob [] = 91 ∷ 93 ∷ []
print_blob (b ∷ bs) = 91 ∷ (format_int (pos b) ++ spaced_bytes bs)

-- Both operands are integers.
unfoldable pub int_arith : BinaryOp → ℤ → ℤ → Eval
int_arith op_add a b = ok (int_datum (add_int a b))
int_arith op_sub a b = ok (int_datum (sub_int a b))
int_arith op_mul a b = ok (int_datum (mul_int a b))
int_arith op_div a b = if is_zero b then panic else ok (int_datum (div_int a b))
int_arith op a b = err (unknown_binary op)

-- `leftInt % rightInt` behind its check.
unfoldable pub modulo : Datum → Datum → Eval
modulo (int_datum a) (int_datum b) =
    if is_zero b then err modulo_by_zero else ok (int_datum (mod_int a b))
modulo left right = err mod_integer

unfoldable pub apply_and : Datum → Datum → Eval
apply_and (bool_datum a) (bool_datum b) = ok (bool_datum (a && b))
apply_and left right = err and_boolean

unfoldable pub apply_or : Datum → Datum → Eval
apply_or (bool_datum a) (bool_datum b) = ok (bool_datum (a || b))
apply_or left right = err or_boolean

unfoldable pub apply_like : Datum → Datum → Eval
apply_like (text_datum a) (text_datum b) = ok (bool_datum (like_match a b))
apply_like left right = err like_string

abbrev pub is_nil : Datum → Bool
is_nil nil_datum = true
is_nil d = false

-- The operators `=`, `!=`, `<`, `>`, `<=` and `>=`, on an order given by `=`, `<` and `<=`.
unfoldable pub compare_by : BinaryOp → Bool → Bool → Bool → Bool → Bool → Bool
compare_by op_eq eq lt gt le ge = eq
compare_by op_ne eq lt gt le ge = not eq
compare_by op_lt eq lt gt le ge = lt
compare_by op_gt eq lt gt le ge = gt
compare_by op_le eq lt gt le ge = le
compare_by op eq lt gt le ge = ge

module _ (floats : Floats) where
  unfoldable pub to_float : Datum → Option Float64
  to_float (int_datum n) = some (floats.of_int n)
  to_float (float_datum x) = some x
  to_float d = none

  -- `fmt.Sprintf("%v", d)`
  unfoldable pub print_datum : Datum → Bytes
  print_datum nil_datum = 60 ∷ 110 ∷ 105 ∷ 108 ∷ 62 ∷ []
  print_datum (bool_datum true) = true_text
  print_datum (bool_datum false) = false_text
  print_datum (int_datum n) = format_int n
  print_datum (float_datum x) = floats.print x
  print_datum (text_datum s) = s
  print_datum (blob_datum b) = print_blob b

  unfoldable pub compare_numbers : BinaryOp → Float64 → Float64 → Bool
  compare_numbers op x y =
      compare_by op (floats.eq x y) (floats.lt x y) (floats.lt y x) (floats.le x y) (floats.le y x)

  unfoldable pub compare_texts : BinaryOp → Bytes → Bytes → Bool
  compare_texts op s t =
      compare_by op (bytes_beq s t) (bytes_ltb s t) (bytes_ltb t s) (not (bytes_ltb t s))
        (not (bytes_ltb s t))

  unfoldable pub compare_data : BinaryOp → Datum → Datum → Option Float64 → Option Float64 → Bool
  compare_data op left right (some x) (some y) = compare_numbers op x y
  compare_data op left right x y = compare_texts op (print_datum left) (print_datum right)

  unfoldable pub float_arith : BinaryOp → Float64 → Float64 → Eval
  float_arith op_add x y = ok (float_datum (floats.add x y))
  float_arith op_sub x y = ok (float_datum (floats.sub x y))
  float_arith op_mul x y = ok (float_datum (floats.mul x y))
  float_arith op_div x y = ok (float_datum (floats.div x y))
  float_arith op x y = err (unknown_binary op)

  unfoldable pub numeric_arith : BinaryOp → Datum → Datum → Float64 → Float64 → Eval
  numeric_arith op (int_datum a) (int_datum b) x y = int_arith op a b
  numeric_arith op left right x y = float_arith op x y

  unfoldable pub apply_arith : BinaryOp → Datum → Datum → Option Float64 → Option Float64 → Eval
  apply_arith op left right (some x) (some y) = numeric_arith op left right x y
  apply_arith op left right x y = err numeric_operands

  -- `toFloat64` gives 0 for what is no number.
  abbrev pub or_zero : Option Float64 → Float64
  or_zero (some x) = x
  or_zero none = 0

  unfoldable pub apply_division : Datum → Datum → Eval
  apply_division left right =
      if floats.eq (or_zero (to_float right)) 0
      then err division_by_zero
      else apply_arith op_div left right (to_float left) (to_float right)

  unfoldable pub apply_values : BinaryOp → Datum → Datum → Eval
  apply_values op_and left right = apply_and left right
  apply_values op_or left right = apply_or left right
  apply_values op_like left right = apply_like left right
  apply_values op_add left right = apply_arith op_add left right (to_float left) (to_float right)
  apply_values op_sub left right = apply_arith op_sub left right (to_float left) (to_float right)
  apply_values op_mul left right = apply_arith op_mul left right (to_float left) (to_float right)
  apply_values op_div left right = apply_division left right
  apply_values op_mod left right = modulo left right
  apply_values (op_other s) left right = err (unknown_binary (op_other s))
  apply_values op left right =
      ok (bool_datum (compare_data op left right (to_float left) (to_float right)))

  unfoldable pub apply_binary_op : BinaryOp → Datum → Datum → Eval
  apply_binary_op op left right =
      if is_nil left || is_nil right then ok nil_datum else apply_values op left right

  unfoldable pub apply_unary_op : UnaryOp → Datum → Eval
  apply_unary_op op_not (bool_datum b) = ok (bool_datum (not b))
  apply_unary_op op_not d = err not_boolean
  apply_unary_op op_neg (int_datum n) = ok (int_datum (neg_int n))
  apply_unary_op op_neg (float_datum x) = ok (float_datum (floats.neg x))
  apply_unary_op op_neg d = err minus_numeric
  apply_unary_op (unary_other s) d = err (unknown_unary s)

  unfoldable pub int_literal : Bytes → Option ℤ → Eval
  int_literal s none = err (invalid_integer s)
  int_literal s (some n) = ok (int_datum n)

  unfoldable pub float_literal : Bytes → Option Float64 → Eval
  float_literal s none = err (invalid_float s)
  float_literal s (some x) = ok (float_datum x)

  unfoldable pub literal_value : LiteralKind → Bytes → Eval
  literal_value kind_integer s = int_literal s (parse_int s)
  literal_value kind_float s = float_literal s (floats.parse s)
  literal_value kind_string s = ok (text_datum s)
  literal_value kind_null s = ok nil_datum
  literal_value (kind_other k) s = err (unknown_kind k)

  unfoldable pub eval_expr : List ColumnDef → Row → Expr → Eval
  eval_expr columns row (literal kind s) = literal_value kind s
  eval_expr columns row (column_ref table name) = column_value name columns row
  eval_expr columns row (binary left op right) =
      eval_expr columns row left
      >>= (λ l. eval_expr columns row right >>= (λ r. apply_binary_op op l r))
  eval_expr columns row (unary op operand) =
      eval_expr columns row operand >>= (λ d. apply_unary_op op d)
  eval_expr columns row (func_call name args star) = err (aggregate_invalid name)
  eval_expr columns row star_expr = err star_invalid
