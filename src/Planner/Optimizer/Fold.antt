-- ===== src/Planner/Optimizer/Fold.antt =====
-- `constantFolding`, `foldExpr` and `evalConstantBinary` of planner/optimizer.go, and `Optimize`.
-- A remainder by a float below 1 divides by the integer 0, which panics.
use my_sqlight.Prelude.{
  ◌&&◌, ◌||◌, not, if◌then◌else◌, Bool, true, false, Option, some, none, List, [], ◌∷◌, Result, ok,
  panic, ◌>>=◌,
}
use my_sqlight.Prelude.Int64.{mod_int, is_zero}
use my_sqlight.Bytes.{Bytes}
use my_sqlight.Maps.{bytes_beq}
use my_sqlight.Catalog.Schema.{IndexDef, Float64}
use my_sqlight.Parser.Ast.{
  Expr, OrderClause, LiteralKind, kind_integer, kind_float, kind_string, kind_null, literal, binary,
  BinaryOp, op_eq, op_ne, op_lt, op_gt, op_le, op_ge, op_add, op_sub, op_mul, op_div, op_mod,
  op_and, op_or,
}
use my_sqlight.Floats.{Floats}
use my_sqlight.Strconv.{format_int}
use my_sqlight.Planner.{
  PlanError, LogicalNode, filter_node, project_node, join_node, aggregate_node, sort_node,
  limit_node,
}
use my_sqlight.Planner.Optimizer.{predicate_pushdown, column_pruning}
use my_sqlight.Planner.Optimizer.Index.{index_selection}

abbrev pub Folded : Type 0 → Type 0
Folded A = Result PlanError A

unfoldable pub bool_literal : Bool → Expr
bool_literal true = literal kind_integer (49 ∷ [])
bool_literal false = literal kind_integer (48 ∷ [])

abbrev pub is_null_kind : LiteralKind → Bool
is_null_kind kind_null = true
is_null_kind kind = false

abbrev pub is_integer : LiteralKind → Bool
is_integer kind_integer = true
is_integer kind = false

abbrev pub is_numeric : LiteralKind → Bool
is_numeric kind_integer = true
is_numeric kind_float = true
is_numeric kind = false

abbrev pub is_string : LiteralKind → Bool
is_string kind_string = true
is_string kind = false

abbrev pub is_logical : BinaryOp → Bool
is_logical op_and = true
is_logical op_or = true
is_logical op = false

-- Texts other than "0" are true.
abbrev pub is_set : Bytes → Bool
is_set text = not (bytes_beq text (48 ∷ []))

unfoldable pub fold_logical : BinaryOp → Bytes → Bytes → Expr
fold_logical op_and left right = bool_literal (is_set left && is_set right)
fold_logical op left right = bool_literal (is_set left || is_set right)

unfoldable pub fold_strings : BinaryOp → Bytes → Bytes → Expr → Expr
fold_strings op_eq left right as_is = bool_literal (bytes_beq left right)
fold_strings op_ne left right as_is = bool_literal (not (bytes_beq left right))
fold_strings op left right as_is = as_is

module _ (floats : Floats) where
  unfoldable pub numeric_literal : Bool → Float64 → Expr
  numeric_literal true x = literal kind_integer (format_int (floats.to_int x))
  numeric_literal false x = literal kind_float (floats.format x)

  unfoldable pub fold_modulo : Bool → Float64 → Float64 → Folded Expr
  fold_modulo whole x y =
      if is_zero (floats.to_int y)
      then panic
      else ok (numeric_literal whole (floats.of_int (mod_int (floats.to_int x) (floats.to_int y))))

  unfoldable pub fold_numbers : BinaryOp → Bool → Float64 → Float64 → Expr → Folded Expr
  fold_numbers op_add whole x y as_is = ok (numeric_literal whole (floats.add x y))
  fold_numbers op_sub whole x y as_is = ok (numeric_literal whole (floats.sub x y))
  fold_numbers op_mul whole x y as_is = ok (numeric_literal whole (floats.mul x y))
  fold_numbers op_div whole x y as_is =
      if floats.eq y 0 then ok as_is else ok (numeric_literal whole (floats.div x y))
  fold_numbers op_mod whole x y as_is = if floats.eq y 0 then ok as_is else fold_modulo whole x y
  fold_numbers op_eq whole x y as_is = ok (bool_literal (floats.eq x y))
  fold_numbers op_ne whole x y as_is = ok (bool_literal (not (floats.eq x y)))
  fold_numbers op_lt whole x y as_is = ok (bool_literal (floats.lt x y))
  fold_numbers op_gt whole x y as_is = ok (bool_literal (floats.lt y x))
  fold_numbers op_le whole x y as_is = ok (bool_literal (floats.le x y))
  fold_numbers op_ge whole x y as_is = ok (bool_literal (floats.le y x))
  fold_numbers op whole x y as_is = ok as_is

  unfoldable pub fold_parsed :
      BinaryOp → Bool → Option Float64 → Option Float64 → Expr → Folded Expr
  fold_parsed op whole (some x) (some y) as_is = fold_numbers op whole x y as_is
  fold_parsed op whole x y as_is = ok as_is

  unfoldable pub eval_constant_binary :
      LiteralKind → Bytes → BinaryOp → LiteralKind → Bytes → Folded Expr
  eval_constant_binary k left op j right =
      let as_is = binary (literal k left) op (literal j right) in
      if is_null_kind k || is_null_kind j
      then ok (literal kind_null (110 ∷ 117 ∷ 108 ∷ 108 ∷ []))
      else if is_logical op
      then ok (if is_integer k && is_integer j then fold_logical op left right else as_is)
      else if is_numeric k && is_numeric j
      then fold_parsed op (is_integer k && is_integer j) (floats.parse left) (floats.parse right)
          as_is
      else ok (if is_string k && is_string j then fold_strings op left right as_is else as_is)

  unfoldable pub fold_pair : Expr → BinaryOp → Expr → Folded Expr
  fold_pair (literal k left) op (literal j right) = eval_constant_binary k left op j right
  fold_pair left op right = ok (binary left op right)

  -- An expression that is no binary one stays, with what it holds.
  unfoldable pub fold_expr : Expr → Folded Expr
  fold_expr (binary left op right) =
      fold_expr left >>= (λ l. fold_expr right >>= (λ r. fold_pair l op r))
  fold_expr e = ok e

  unfoldable pub fold_exprs : List Expr → Folded (List Expr)
  fold_exprs [] = ok []
  fold_exprs (e ∷ exprs) = fold_expr e >>= (λ f. fold_exprs exprs >>= (λ fs. ok (f ∷ fs)))

  unfoldable pub fold_orders : List OrderClause → Folded (List OrderClause)
  fold_orders [] = ok []
  fold_orders (clause ∷ clauses) =
      fold_expr clause.expr
      >>= (λ e. fold_orders clauses >>= (λ rest. ok (record clause { expr = e } ∷ rest)))

  unfoldable pub fold_condition : Option Expr → Folded (Option Expr)
  fold_condition none = ok none
  fold_condition (some e) = fold_expr e >>= (λ f. ok (some f))

  unfoldable pub constant_folding : LogicalNode → Folded LogicalNode
  constant_folding (filter_node child predicate) =
      constant_folding child >>= (λ c. fold_expr predicate >>= (λ p. ok (filter_node c p)))
  constant_folding (project_node child columns) =
      constant_folding child >>= (λ c. fold_exprs columns >>= (λ es. ok (project_node c es)))
  constant_folding (join_node left right condition) = constant_folding left >>= (λ l.
      constant_folding right >>= (λ r. fold_condition condition >>= (λ c. ok (join_node l r c))))
  constant_folding (aggregate_node child group_by aggs) =
      constant_folding child
      >>= (λ c. fold_exprs group_by >>= (λ es. ok (aggregate_node c es aggs)))
  constant_folding (sort_node child order_by) =
      constant_folding child >>= (λ c. fold_orders order_by >>= (λ os. ok (sort_node c os)))
  constant_folding (limit_node child n) = constant_folding child >>= (λ c. ok (limit_node c n))
  constant_folding node = ok node

  unfoldable pub optimize : (Bytes → Option (List IndexDef)) → LogicalNode → Folded LogicalNode
  optimize indexes_for_table root =
      constant_folding (predicate_pushdown root)
      >>= (λ folded. ok (index_selection indexes_for_table (column_pruning folded)))
