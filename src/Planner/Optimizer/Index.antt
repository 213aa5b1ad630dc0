-- ===== src/Planner/Optimizer/Index.antt =====
-- `indexSelection` and `extractIndexPredicate` of planner/optimizer.go. The catalog's indexes of a
-- table are a parameter, `none` where the catalog gives an error.
use my_sqlight.Prelude.{if◌then◌else◌, Option, some, none, List, [], ◌∷◌}
use my_sqlight.Bytes.{Bytes}
use my_sqlight.Maps.{bytes_beq}
use my_sqlight.Catalog.Schema.{ColumnDef, IndexDef}
use my_sqlight.Parser.Ast.{
  Expr, binary, column_ref, literal, BinaryOp, op_eq, op_lt, op_gt, op_le, op_ge,
}
use my_sqlight.Planner.{
  LogicalNode, scan, index_scan, filter_node, project_node, join_node, aggregate_node, sort_node,
  limit_node, has_some,
}

-- The column and the bounds of a comparison of a column with a literal.
pub record IndexBounds : Type 0 where
  pub column : Bytes
  pub exact : Option Expr
  pub low : Option Expr
  pub high : Option Expr

unfoldable pub flip_op : BinaryOp → BinaryOp
flip_op op_lt = op_gt
flip_op op_gt = op_lt
flip_op op_le = op_ge
flip_op op_ge = op_le
flip_op op = op

unfoldable pub bounds_of : Bytes → BinaryOp → Expr → Option IndexBounds
bounds_of name op_eq value =
    some (record { column = name; exact = some value; low = none; high = none })
bounds_of name op_gt value =
    some (record { column = name; exact = none; low = some value; high = none })
bounds_of name op_ge value =
    some (record { column = name; exact = none; low = some value; high = none })
bounds_of name op_lt value =
    some (record { column = name; exact = none; low = none; high = some value })
bounds_of name op_le value =
    some (record { column = name; exact = none; low = none; high = some value })
bounds_of name op value = none

unfoldable pub extract_index_predicate : Expr → Option IndexBounds
extract_index_predicate (binary (column_ref table name) op (literal kind value)) =
    bounds_of name op (literal kind value)
extract_index_predicate (binary (literal kind value) op (column_ref table name)) =
    bounds_of name (flip_op op) (literal kind value)
extract_index_predicate e = none

-- The first index on the column takes the place of the filter and the scan.
unfoldable pub pick_index :
    Bytes → List ColumnDef → Expr → IndexBounds → List IndexDef → LogicalNode
pick_index table columns predicate bounds [] = filter_node (scan table columns) predicate
pick_index table columns predicate bounds (i ∷ indexes) =
    let later = pick_index table columns predicate bounds indexes in
    if bytes_beq i.column_name bounds.column
    then index_scan table i.name bounds.column columns bounds.exact bounds.low bounds.high
    else later

module _ (indexes_for_table : Bytes → Option (List IndexDef)) where
  -- An empty column name means that the predicate is not of the form.
  unfoldable pub select_for :
      Bytes → List ColumnDef → Expr → Option IndexBounds → Option (List IndexDef) → LogicalNode
  select_for table columns predicate (some bounds) (some indexes) =
      if has_some bounds.column
      then pick_index table columns predicate bounds indexes
      else filter_node (scan table columns) predicate
  select_for table columns predicate bounds indexes = filter_node (scan table columns) predicate

  unfoldable pub select_index : LogicalNode → Expr → LogicalNode
  select_index (scan table columns) predicate =
      select_for table columns predicate (extract_index_predicate predicate)
        (indexes_for_table table)
  select_index node predicate = filter_node node predicate

  unfoldable pub index_selection : LogicalNode → LogicalNode
  index_selection (filter_node child predicate) = select_index (index_selection child) predicate
  index_selection (join_node left right condition) =
      join_node (index_selection left) (index_selection right) condition
  index_selection (project_node child columns) = project_node (index_selection child) columns
  index_selection (aggregate_node child group_by aggs) =
      aggregate_node (index_selection child) group_by aggs
  index_selection (sort_node child order_by) = sort_node (index_selection child) order_by
  index_selection (limit_node child n) = limit_node (index_selection child) n
  index_selection node = node
