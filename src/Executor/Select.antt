-- ===== src/Executor/Select.antt =====
-- buildSelectPipeline of executor/executor.go: the operators of a SELECT statement. What opens a
-- table and reads its rows (the catalog, the B+ tree and the lock) is a parameter.
pub mod Meaning
pub mod Refines
use my_sqlight.Executor.Eval.{Row}
use my_sqlight.Prelude.{
  ℕ, Bool, true, false, ◌||◌, not, if◌then◌else◌, Option, some, none, List, [], ◌∷◌, ◌++◌, Result,
  ok, err, panic, ◌>>=◌,
}
use my_sqlight.Bytes.{Bytes}
use my_sqlight.Catalog.Schema.{ColumnDef, TableDef}
use my_sqlight.Parser.Ast.{
  Expr, func_call, binary, unary, star_expr, JoinClause, SelectStmt, OrderClause,
}
use my_sqlight.Floats.{Floats}
use my_sqlight.Executor.Operators.{
  input_error, collect_rows, OpError, Operator, filter_op, project_op, limit_op, join_op,
}
use my_sqlight.Executor.Operators.Sort.{sort_op}
use my_sqlight.Executor.Operators.Group.{aggregate_op}

unfoldable pub contains_aggregate : Expr → Bool
contains_aggregate (func_call name args star) = true
contains_aggregate (binary left op right) = contains_aggregate left || contains_aggregate right
contains_aggregate (unary op operand) = contains_aggregate operand
contains_aggregate e = false

unfoldable pub has_aggregates : List Expr → Bool
has_aggregates [] = false
has_aggregates (e ∷ exprs) = contains_aggregate e || has_aggregates exprs

unfoldable pub is_select_star : List Expr → Bool
is_select_star (star_expr ∷ []) = true
is_select_star exprs = false

abbrev pub is_empty {ℓ} : {A : Type ℓ} → List A → Bool
is_empty [] = true
is_empty (x ∷ xs) = false

-- An error of what opens a table.
unfoldable pub lift_input {ℓ κ} : {E : Type ℓ} {A : Type κ} → Result E A → Result (OpError E) A
lift_input (ok a) = ok a
lift_input (err e) = err (input_error e)
lift_input panic = panic

-- What an operator yields has these columns.
abbrev pub Pipeline {ℓ} : Type ℓ → Type ℓ
Pipeline E = Operator E × List ColumnDef

module _ {ℓ} {E : Type ℓ} where
  unfoldable pub add_limit : Option ℕ → Operator E → Operator E
  add_limit none op = op
  add_limit (some n) op = limit_op n op

module _ {ℓ} {E : Type ℓ} (floats : Floats) where
  unfoldable pub add_filter : Option Expr → Pipeline E → Pipeline E
  add_filter none (op, columns) = (op, columns)
  add_filter (some condition) (op, columns) = (filter_op floats columns condition op, columns)

  unfoldable pub add_sort : List OrderClause → Pipeline E → Pipeline E
  add_sort order_by (op, columns) =
      if is_empty order_by then (op, columns) else (sort_op floats columns order_by op, columns)

  unfoldable pub add_project : List Expr → Pipeline E → Operator E
  add_project exprs (op, columns) =
      if is_select_star exprs then op else project_op floats columns exprs op

  unfoldable pub add_output : SelectStmt → Pipeline E → Operator E
  add_output stmt (op, columns) =
      if not (is_empty stmt.group_by) || has_aggregates stmt.columns
      then aggregate_op floats columns stmt.group_by stmt.columns op
      else add_project stmt.columns (add_sort stmt.order_by (op, columns))

  module _ (open_table : Bytes → Result E (TableDef × Operator E)) where
    unfoldable pub add_joins : List JoinClause → Pipeline E → Result E (Pipeline E)
    add_joins [] pipeline = ok pipeline
    add_joins (join ∷ joins) (op, columns) = open_table join.table >>= (λ right.
        let all_columns = columns ++ right.0.columns in
        add_joins joins (join_op floats all_columns join.on op right.1, all_columns))

    unfoldable pub build_select_pipeline : SelectStmt → Result E (Operator E)
    build_select_pipeline stmt = open_table stmt.from >>= (λ first.
        add_joins stmt.joins (first.1, first.0.columns) >>= (λ joined.
          ok (add_limit stmt.limit (add_output stmt (add_filter stmt.condition joined)))))

    -- The case of a SELECT statement in Execute.
    unfoldable pub execute_select : SelectStmt → Result (OpError E) (List Row)
    execute_select stmt = lift_input (build_select_pipeline stmt) >>= collect_rows
