-- ===== src/Planner/Optimizer.antt =====
-- Passes of planner/optimizer.go: predicatePushdown, columnPruning and indexSelection. A set of
-- names is a list.
pub mod Fold
pub mod Index
pub mod Prune
use my_sqlight.Prelude.{
  ◌&&◌, ◌||◌, not, if◌then◌else◌, Bool, true, false, Option, some, none, List, [], ◌∷◌, ◌++◌,
}
use my_sqlight.Bytes.{Bytes}
use my_sqlight.Maps.{bytes_beq}
use my_sqlight.Catalog.Schema.{ColumnDef, IndexDef}
use my_sqlight.Parser.Ast.{
  Expr, Exprs, no_exprs, one_more, binary, unary, func_call, column_ref, literal, star_expr,
  BinaryOp, op_eq, op_lt, op_gt, op_le, op_ge, OrderClause, LiteralKind,
}
use my_sqlight.Planner.{
  LogicalNode, scan, index_scan, filter_node, project_node, join_node, aggregate_node, sort_node,
  limit_node, one_of, has_some,
}

-- collectColumnRefTables
unfoldable mutual
  pub column_tables : Expr → List Bytes
  column_tables (column_ref table name) = if has_some table then table ∷ [] else []
  column_tables (binary left op right) = column_tables left ++ column_tables right
  column_tables (unary op operand) = column_tables operand
  column_tables (func_call name args star) = args_tables args
  column_tables e = []

  pub args_tables : Exprs → List Bytes
  args_tables no_exprs = []
  args_tables (one_more e args) = column_tables e ++ args_tables args

unfoldable pub tables_in_subtree : LogicalNode → List Bytes
tables_in_subtree (scan table columns) = table ∷ []
tables_in_subtree (index_scan table index column columns exact low high) = table ∷ []
tables_in_subtree (filter_node child predicate) = tables_in_subtree child
tables_in_subtree (project_node child columns) = tables_in_subtree child
tables_in_subtree (join_node left right condition) =
    tables_in_subtree left ++ tables_in_subtree right
tables_in_subtree (aggregate_node child group_by aggs) = tables_in_subtree child
tables_in_subtree (sort_node child order_by) = tables_in_subtree child
tables_in_subtree (limit_node child n) = tables_in_subtree child

unfoldable pub all_of : List Bytes → List Bytes → Bool
all_of [] tables = true
all_of (name ∷ names) tables = one_of name tables && all_of names tables

-- A filter above its child, whose own filters have been pushed down.
unfoldable pub push_filter : LogicalNode → Expr → LogicalNode
push_filter (join_node left right condition) predicate =
    let refs = column_tables predicate in
    if not (has_some refs)
    then filter_node (join_node left right condition) predicate
    else if all_of refs (tables_in_subtree left)
    then join_node (filter_node left predicate) right condition
    else if all_of refs (tables_in_subtree right)
    then join_node left (filter_node right predicate) condition
    else filter_node (join_node left right condition) predicate
push_filter node predicate = filter_node node predicate

unfoldable pub predicate_pushdown : LogicalNode → LogicalNode
predicate_pushdown (filter_node child predicate) = push_filter (predicate_pushdown child) predicate
predicate_pushdown (join_node left right condition) =
    join_node (predicate_pushdown left) (predicate_pushdown right) condition
predicate_pushdown (project_node child columns) = project_node (predicate_pushdown child) columns
predicate_pushdown (aggregate_node child group_by aggs) =
    aggregate_node (predicate_pushdown child) group_by aggs
predicate_pushdown (sort_node child order_by) = sort_node (predicate_pushdown child) order_by
predicate_pushdown (limit_node child n) = limit_node (predicate_pushdown child) n
predicate_pushdown node = node

-- The name that stands for `*`.
abbrev pub star_name : Bytes
star_name = 42 ∷ []

-- collectColumnNamesInto
unfoldable mutual
  pub column_names : Expr → List Bytes
  column_names (column_ref table name) = name ∷ []
  column_names (binary left op right) = column_names left ++ column_names right
  column_names (unary op operand) = column_names operand
  column_names (func_call name args star) = args_names args
  column_names star_expr = star_name ∷ []
  column_names (literal kind value) = []

  pub args_names : Exprs → List Bytes
  args_names no_exprs = []
  args_names (one_more e args) = column_names e ++ args_names args

unfoldable pub all_names : List Expr → List Bytes
all_names [] = []
all_names (e ∷ exprs) = column_names e ++ all_names exprs

unfoldable pub order_names : List OrderClause → List Bytes
order_names [] = []
order_names (clause ∷ clauses) = column_names clause.expr ++ order_names clauses

unfoldable pub condition_names : Option Expr → List Bytes
condition_names none = []
condition_names (some e) = column_names e

unfoldable pub referenced_columns : LogicalNode → List Bytes
referenced_columns (filter_node child predicate) =
    column_names predicate ++ referenced_columns child
referenced_columns (project_node child columns) = all_names columns ++ referenced_columns child
referenced_columns (join_node left right condition) =
    condition_names condition ++ (referenced_columns left ++ referenced_columns right)
referenced_columns (aggregate_node child group_by aggs) =
    all_names group_by ++ (all_names aggs ++ referenced_columns child)
referenced_columns (sort_node child order_by) = order_names order_by ++ referenced_columns child
referenced_columns (limit_node child n) = referenced_columns child
referenced_columns node = []

abbrev pub is_kept : List Bytes → ColumnDef → Bool
is_kept refs c = c.primary_key || one_of c.name refs

unfoldable pub referenced_only : List Bytes → List ColumnDef → List ColumnDef
referenced_only refs [] = []
referenced_only refs (c ∷ columns) =
    let rest = referenced_only refs columns in if is_kept refs c then c ∷ rest else rest

-- The first column stays where no other does.
unfoldable pub or_first {ℓ} : {A : Type ℓ} → List A → List A → List A
or_first [] [] = []
or_first [] (x ∷ xs) = x ∷ []
or_first (k ∷ kept) xs = k ∷ kept

unfoldable pub kept_columns : List Bytes → List ColumnDef → List ColumnDef
kept_columns refs columns = or_first (referenced_only refs columns) columns

unfoldable pub prune_scans : List Bytes → LogicalNode → LogicalNode
prune_scans refs (scan table columns) = scan table (kept_columns refs columns)
prune_scans refs (filter_node child predicate) = filter_node (prune_scans refs child) predicate
prune_scans refs (project_node child columns) = project_node (prune_scans refs child) columns
prune_scans refs (join_node left right condition) =
    join_node (prune_scans refs left) (prune_scans refs right) condition
prune_scans refs (aggregate_node child group_by aggs) =
    aggregate_node (prune_scans refs child) group_by aggs
prune_scans refs (sort_node child order_by) = sort_node (prune_scans refs child) order_by
prune_scans refs (limit_node child n) = limit_node (prune_scans refs child) n
prune_scans refs node = node

unfoldable pub column_pruning : LogicalNode → LogicalNode
column_pruning node =
    let refs = referenced_columns node in
    if one_of star_name refs then node else prune_scans refs node
