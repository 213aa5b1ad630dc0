-- ===== src/Tests/Queries.antt =====
-- Tests of expressions and of SELECT statements (executor/).
use my_sqlight.Prelude.{
  ℕ, ◌+◌, ◌*◌, ◌-◌, ◌/◌, ◌≡◌, ◌≢◌, ◌↔◌, refl, ltb, leb, ◌==◌, true, false, List, [], ◌∷◌, some,
  none, ok, panic,
}
use my_sqlight.Prelude.Int64.{ℤ, pos, negsuc, of_u64, add_int, to_u64}
use my_sqlight.Bytes.{Bytes}
use my_sqlight.Catalog.Schema.{Value, ColumnDef, TableDef, Float64, type_int}
use my_sqlight.Parser.Ast.{
  Expr, func_call, no_exprs, SelectStmt, binary, column_ref, literal, kind_integer, op_gt, op_add,
  op_div, star_expr,
}
use my_sqlight.Strconv.{parse_int, digits_from, signed_digits, in_range, parse_digits}
use my_sqlight.Maps.{bytes_eq, bytes_beq}
use my_sqlight.Catalog.Stored.{All}
use my_sqlight.Planner.{one_of}
use my_sqlight.Planner.Optimizer.{column_names, kept_columns}
use my_sqlight.Planner.Optimizer.Prune.{kept_row, eval_expr_pruned}
use my_sqlight.Floats.{Floats}
use my_sqlight.Executor.Operators.Group.{GroupData, Groups, new_state}
use my_sqlight.Executor.Like.{like_match}
use my_sqlight.Executor.Like.Correct.{like_match_iff}
use my_sqlight.Executor.Like.Pattern.{IsLike}
use my_sqlight.Executor.Eval.{
  Row, eval_expr, int_datum, literal_value, int_literal, numeric_arith, column_value, to_float,
  apply_binary_op, typed_value, apply_arith, int_arith, cell, apply_values,
}
use my_sqlight.Executor.Eval.Total.{eval_expr_total}

-- `abc` against `a%c`
like_match_iff_example :
    (like_match (97 ∷ 98 ∷ 99 ∷ []) (97 ∷ 37 ∷ 99 ∷ []) ≡ true)
    ↔ IsLike (97 ∷ 37 ∷ 99 ∷ []) (97 ∷ 98 ∷ 99 ∷ [])
like_match_iff_example = like_match_iff (97 ∷ 98 ∷ 99 ∷ []) (97 ∷ 37 ∷ 99 ∷ [])

abbrev whole : ℤ → Float64
whole (pos n) = n
whole (negsuc n) = 0

-- Floats that are whole numbers, each its own bits.
abbrev whole_floats : Floats
whole_floats = record {
  of_int = whole;
  to_int = λ x. pos x;
  neg = λ x. 0;
  add = λ x y. x + y;
  sub = λ x y. x - y;
  mul = λ x y. x * y;
  div = λ x y. x / y;
  eq = λ x y. x == y;
  lt = ltb;
  le = leb;
  parse = λ s. none;
  print = λ x. [];
  format = λ x. [];
}

abbrev number : ℕ → Value
number n = record { is_null = false; int_val = pos n; float_val = 0; text_val = []; blob_val = [] }

-- A table `t` with the column `a`.
abbrev columns : List ColumnDef
columns =
    record {
      name = 97 ∷ [];
      col_type = type_int;
      primary_key = true;
      not_null = true;
      default = none;
    }
    ∷ []

abbrev row : ℕ → Row
row n = number n ∷ []

-- `a / 0` and `a + 7`
abbrev by_zero : Expr
by_zero = binary (column_ref [] (97 ∷ [])) op_div (literal kind_integer (48 ∷ []))

abbrev more : Expr
more = binary (column_ref [] (97 ∷ [])) op_add (literal kind_integer (55 ∷ []))

eval_expr_total_example : eval_expr whole_floats columns (row 5) by_zero ≢ panic
eval_expr_total_example = eval_expr_total whole_floats refl columns (row 5) by_zero

sum : eval_expr whole_floats columns (row 5) more ≡ ok (int_datum (pos 12))
unfolding eval_expr column_value cell typed_value literal_value int_literal apply_binary_op
    apply_values apply_arith numeric_arith int_arith to_float parse_int parse_digits digits_from
    signed_digits in_range add_int to_u64 of_u64 bytes_beq
sum = refl

abbrev tables : Bytes → TableDef × List Row
tables name = (
  record { name = 116 ∷ []; columns = columns; foreign_keys = []; root_page_id = 1 },
  row 1 ∷ row 5 ∷ row 3 ∷ [],
)

-- `SELECT * FROM t WHERE a > 2 ORDER BY a DESC LIMIT 9`
abbrev query : SelectStmt
query = record {
  columns = star_expr ∷ [];
  from = 116 ∷ [];
  joins = [];
  condition = some (binary (column_ref [] (97 ∷ [])) op_gt (literal kind_integer (50 ∷ [])));
  group_by = [];
  having = none;
  order_by = record { expr = column_ref [] (97 ∷ []); desc = true } ∷ [];
  limit = some 9;
}

-- `SELECT COUNT(*) FROM t GROUP BY a` on the rows 1, 5, 1
abbrev by_a : List Expr
by_a = column_ref [] (97 ∷ []) ∷ []

abbrev counting : List Expr
counting = func_call (67 ∷ 79 ∷ 85 ∷ 78 ∷ 84 ∷ []) no_exprs true ∷ []

abbrev repeated : List Row
repeated = row 1 ∷ row 5 ∷ row 1 ∷ []

abbrev counted : ℕ → ℕ → GroupData
counted n first = record { states = record new_state { count = pos n } ∷ []; first_row = row first }

abbrev groups : Groups
groups = (49 ∷ 0 ∷ [], counted 2 1) ∷ (53 ∷ 0 ∷ [], counted 1 5) ∷ []

-- The column `b` is kept for the expression, and `a` as the primary key; `c` goes.
abbrev three_columns : List ColumnDef
three_columns =
    record {
      name = 97 ∷ [];
      col_type = type_int;
      primary_key = true;
      not_null = true;
      default = none;
    }
    ∷ record {
      name = 98 ∷ [];
      col_type = type_int;
      primary_key = false;
      not_null = true;
      default = none;
    }
    ∷ record {
      name = 99 ∷ [];
      col_type = type_int;
      primary_key = false;
      not_null = true;
      default = none;
    }
    ∷ []

abbrev names : List Bytes
names = (98 ∷ []) ∷ []

abbrev sum_of_b : Expr
sum_of_b = binary (column_ref [] (98 ∷ [])) op_add (literal kind_integer (55 ∷ []))

names_there : All (λ n. one_of n names ≡ true) (column_names sum_of_b)
unfolding column_names one_of bytes_beq
names_there = (refl, tt)

eval_expr_pruned_example :
    eval_expr whole_floats
      (kept_columns names three_columns)
      (kept_row names three_columns (number 1 ∷ number 2 ∷ number 3 ∷ []))
      sum_of_b
    ≡ eval_expr whole_floats three_columns (number 1 ∷ number 2 ∷ number 3 ∷ []) sum_of_b
eval_expr_pruned_example =
    eval_expr_pruned whole_floats names three_columns (number 1 ∷ number 2 ∷ number 3 ∷ []) sum_of_b
      refl names_there
