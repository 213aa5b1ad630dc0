-- ===== src/Executor/Select/Meaning.antt =====
-- What a SELECT statement without groups means on tables that are lists of rows.
use my_sqlight.Prelude.{
  ℕ, ◌≡◌, if◌then◌else◌, Option, some, none, List, [], ◌∷◌, ◌++◌, take, Result, ok, ◌>>=◌,
}
use my_sqlight.Bytes.{Bytes}
use my_sqlight.Catalog.Schema.{ColumnDef, TableDef}
use my_sqlight.Parser.Ast.{Expr, JoinClause, SelectStmt, OrderClause}
use my_sqlight.Floats.{Floats}
use my_sqlight.Executor.Eval.{EvalError, Row, eval_expr}
use my_sqlight.Executor.Operators.{join_test, output_row}
use my_sqlight.Executor.Operators.Meaning.{select_rows, map_rows, join_rows}
use my_sqlight.Executor.Operators.Sort.Order.{comes_first}
use my_sqlight.Executor.Operators.Sort.Sorted.{Reordered, InOrder}
use my_sqlight.Executor.Select.{is_select_star}

-- Rows with the columns that they have.
abbrev pub Table : Type 0
Table = List Row × List ColumnDef

abbrev pub limited : Option ℕ → List Row → List Row
limited none rows = rows
limited (some n) rows = take n rows

module _ (floats : Floats) where
  unfoldable pub where_rows : Option Expr → Table → Result EvalError (List Row)
  where_rows none (rows, columns) = ok rows
  where_rows (some condition) (rows, columns) =
      select_rows (λ row. eval_expr floats columns row condition) rows

  -- The rows as ORDER BY asks for: none comes before the one in front of it, and they are reached by
  -- exchanges of neighbours that put first what comes first, so equal ones keep their order.
  unfoldable pub SortedBy : List ColumnDef → List OrderClause → List Row → List Row → Type 0
  SortedBy columns [] rows sorted = sorted ≡ rows
  SortedBy columns (clause ∷ clauses) rows sorted =
      Reordered (comes_first floats columns (clause ∷ clauses)) rows sorted
      × InOrder (comes_first floats columns (clause ∷ clauses)) sorted

  unfoldable pub listed_rows : List Expr → List ColumnDef → List Row → Result EvalError (List Row)
  listed_rows exprs columns rows =
      if is_select_star exprs then ok rows else map_rows (output_row floats columns exprs) rows

  module _ (tables : Bytes → TableDef × List Row) where
    unfoldable pub joined_table : List JoinClause → Table → Result EvalError Table
    joined_table [] table = ok table
    joined_table (join ∷ joins) (rows, columns) =
        let (definition, right) = tables join.table in
        let all_columns = columns ++ definition.columns in
        join_rows (join_test floats all_columns join.on) rows right
        >>= (λ joined. joined_table joins (joined, all_columns))

    -- The tables joined, then the rows that WHERE keeps.
    unfoldable pub selected : SelectStmt → Result EvalError Table
    selected stmt =
        let (definition, first) = tables stmt.from in
        joined_table stmt.joins (first, definition.columns)
        >>= (λ table. where_rows stmt.condition table >>= (λ kept. ok (kept, table.1)))
