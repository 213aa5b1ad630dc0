-- ===== src/Planner.antt =====
-- The planner of planner/planner.go: a SELECT statement as a logical plan, bottom-up. The catalog
-- is a parameter.
pub mod Optimizer
use my_sqlight.Prelude.{
  ℕ, ◌+◌, ◌-◌, leb, ◌&&◌, ◌||◌, not, if◌then◌else◌, Bool, true, false, Option, some, none, List, [],
  ◌∷◌, map, Result, ok, err, panic, ◌>>=◌,
}
use my_sqlight.Bytes.{Bytes}
use my_sqlight.Maps.{bytes_beq}
use my_sqlight.Catalog.Schema.{ColumnDef, TableDef}
use my_sqlight.Parser.Ast.{Expr, binary, unary, func_call, JoinClause, OrderClause, SelectStmt}

-- A plan; an expression that may be nil is an option.
pub data LogicalNode : Type 0 where
  scan : Bytes → List ColumnDef → LogicalNode
  index_scan :
      Bytes → Bytes → Bytes → List ColumnDef → Option Expr → Option Expr → Option Expr → LogicalNode
  filter_node : LogicalNode → Expr → LogicalNode
  project_node : LogicalNode → List Expr → LogicalNode
  join_node : LogicalNode → LogicalNode → Option Expr → LogicalNode
  aggregate_node : LogicalNode → List Expr → List Expr → LogicalNode
  sort_node : LogicalNode → List OrderClause → LogicalNode
  limit_node : LogicalNode → ℕ → LogicalNode

pub data PlanError : Type 0 where
  from_required : PlanError
  table_missing : Bytes → PlanError

-- `strings.ToUpper` of a letter; the names of the lexer are ASCII.
abbrev pub upper : ℕ → ℕ
upper c = if leb 97 c && leb c 122 then c - 32 else c

-- COUNT, SUM, MIN, MAX and AVG
abbrev pub aggregate_names : List Bytes
aggregate_names =
    (67 ∷ 79 ∷ 85 ∷ 78 ∷ 84 ∷ [])
    ∷ (83 ∷ 85 ∷ 77 ∷ [])
    ∷ (77 ∷ 73 ∷ 78 ∷ [])
    ∷ (77 ∷ 65 ∷ 88 ∷ [])
    ∷ (65 ∷ 86 ∷ 71 ∷ [])
    ∷ []

unfoldable pub one_of : Bytes → List Bytes → Bool
one_of name [] = false
one_of name (n ∷ names) = bytes_beq name n || one_of name names

unfoldable pub has_aggregate_func_call : Expr → Bool
has_aggregate_func_call (func_call name args star) = one_of (map upper name) aggregate_names
has_aggregate_func_call (binary left op right) =
    has_aggregate_func_call left || has_aggregate_func_call right
has_aggregate_func_call (unary op operand) = has_aggregate_func_call operand
has_aggregate_func_call e = false

unfoldable pub plan_aggregates : List Expr → Bool
plan_aggregates [] = false
plan_aggregates (e ∷ exprs) = has_aggregate_func_call e || plan_aggregates exprs

unfoldable pub plan_where : Option Expr → LogicalNode → LogicalNode
plan_where none node = node
plan_where (some condition) node = filter_node node condition

unfoldable pub plan_sort : List OrderClause → LogicalNode → LogicalNode
plan_sort [] node = node
plan_sort (clause ∷ clauses) node = sort_node node (clause ∷ clauses)

unfoldable pub plan_limit : Option ℕ → LogicalNode → LogicalNode
plan_limit none node = node
plan_limit (some n) node = limit_node node n

abbrev pub has_some {ℓ} : {A : Type ℓ} → List A → Bool
has_some [] = false
has_some (x ∷ xs) = true

unfoldable pub plan_output : SelectStmt → LogicalNode → LogicalNode
plan_output stmt node =
    if has_some stmt.group_by || plan_aggregates stmt.columns
    then plan_where stmt.having (aggregate_node node stmt.group_by stmt.columns)
    else project_node node stmt.columns

module _ (get_table : Bytes → Option TableDef) where
  unfoldable pub planned_table : Bytes → Option TableDef → Result PlanError LogicalNode
  planned_table name none = err (table_missing name)
  planned_table name (some definition) = ok (scan name definition.columns)

  unfoldable pub plan_joins : List JoinClause → LogicalNode → Result PlanError LogicalNode
  plan_joins [] node = ok node
  plan_joins (join ∷ joins) node =
      planned_table join.table (get_table join.table)
      >>= (λ right. plan_joins joins (join_node node right join.on))

  -- WHERE stands below the joins.
  unfoldable pub plan_from : SelectStmt → Result PlanError LogicalNode
  plan_from stmt = planned_table stmt.from (get_table stmt.from) >>= (λ first.
      plan_joins stmt.joins (plan_where stmt.condition first) >>= (λ joined.
        ok (plan_limit stmt.limit (plan_sort stmt.order_by (plan_output stmt joined)))))

  unfoldable pub plan_select : SelectStmt → Result PlanError LogicalNode
  plan_select stmt = if has_some stmt.from then plan_from stmt else err from_required
