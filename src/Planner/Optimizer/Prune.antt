-- ===== src/Planner/Optimizer/Prune.antt =====
-- A pruned row gives every expression over the columns that are kept the same value.
use my_sqlight.Prelude.{
  suc, ◌≡◌, ◌∙◌, refl, sym, ap, subst, arith, ◌||◌, if◌then◌else◌, Bool, true, false, Bool-cases,
  inl, inr, List, [], ◌∷◌, ◌++◌, length,
}
use my_sqlight.Bytes.{Bytes}
use my_sqlight.Maps.{bytes_beq, bytes_eq_iff}
use my_sqlight.Catalog.Stored.{All}
use my_sqlight.Catalog.Schema.{ColumnDef}
use my_sqlight.Parser.Ast.{Expr, binary, unary, func_call, column_ref, literal, star_expr}
use my_sqlight.Floats.{Floats}
use my_sqlight.Executor.Eval.{Row, eval_expr, column_value, cell}
use my_sqlight.Planner.{one_of}
use my_sqlight.Planner.Optimizer.{column_names, is_kept, referenced_only, or_first, kept_columns}

-- The values of the columns that are kept.
unfoldable pub referenced_values : List Bytes → List ColumnDef → Row → Row
referenced_values refs [] row = []
referenced_values refs (c ∷ columns) [] = []
referenced_values refs (c ∷ columns) (v ∷ row) =
    let rest = referenced_values refs columns row in if is_kept refs c then v ∷ rest else rest

unfoldable pub kept_row : List Bytes → List ColumnDef → Row → Row
kept_row refs columns row = or_first (referenced_values refs columns row) row

kept_named :
    (refs : List Bytes) (name : Bytes) (c : ColumnDef)
    → bytes_beq c.name name ≡ true
    → one_of name refs ≡ true
    → is_kept refs c ≡ true
kept_named refs name c e h =
    let named : one_of c.name refs ≡ true =
      subst (λ n. one_of n refs ≡ true) (sym ((bytes_eq_iff c.name name).0 e)) h in
    ap (λ b. c.primary_key || b) named ∙ or_true c.primary_key
  where
    or_true : (b : Bool) → (b || true) ≡ true
    or_true true = refl
    or_true false = refl

column_value-referenced :
    (refs : List Bytes) (name : Bytes) (columns : List ColumnDef) (row : Row)
    → length row ≡ length columns
    → one_of name refs ≡ true
    → column_value name (referenced_only refs columns) (referenced_values refs columns row)
      ≡ column_value name columns row
unfolding column_value referenced_only referenced_values cell
column_value-referenced refs name [] row size h = refl
column_value-referenced refs name (c ∷ columns) [] size h = absurd (omega arith)
column_value-referenced refs name (c ∷ columns) (v ∷ row) size h =
    elim (Bool-cases (bytes_beq c.name name)) [
      | inl e ↦ rw (kept_named refs name c e h, e) refl
      | inr e ↦ elim (Bool-cases (is_kept refs c)) [
        | inl k ↦ rw (k, e) (column_value-referenced refs name columns row (omega arith) h)
        | inr k ↦ rw (k, e) (column_value-referenced refs name columns row (omega arith) h)
      ]
    ]

length-referenced :
    (refs : List Bytes) (columns : List ColumnDef) (row : Row)
    → length row ≡ length columns
    → length (referenced_values refs columns row) ≡ length (referenced_only refs columns)
unfolding referenced_values referenced_only
length-referenced refs [] row size = refl
length-referenced refs (c ∷ columns) [] size = absurd (omega arith)
length-referenced refs (c ∷ columns) (v ∷ row) size = elim (Bool-cases (is_kept refs c)) [
  | inl k ↦ rw k (ap suc (length-referenced refs columns row (omega arith)))
  | inr k ↦ rw k (length-referenced refs columns row (omega arith))
]

-- Where no column is kept, no column has the name.
column_value-kept :
    (refs : List Bytes) (name : Bytes) (columns : List ColumnDef) (row : Row)
    → length row ≡ length columns
    → one_of name refs ≡ true
    → column_value name (kept_columns refs columns) (kept_row refs columns row)
      ≡ column_value name columns row
unfolding kept_columns kept_row or_first column_value referenced_only referenced_values cell
column_value-kept refs name [] [] size h = refl
column_value-kept refs name [] (v ∷ row) size h = absurd (omega arith)
column_value-kept refs name (c ∷ columns) [] size h = absurd (omega arith)
column_value-kept refs name (c ∷ columns) (v ∷ row) size h =
    first_or_kept (referenced_only refs (c ∷ columns))
      (referenced_values refs (c ∷ columns) (v ∷ row))
      (column_value-referenced refs name (c ∷ columns) (v ∷ row) size h)
      (length-referenced refs (c ∷ columns) (v ∷ row) size)
  where
    first_or_kept :
        (kept : List ColumnDef) (values : Row)
        → column_value name kept values ≡ column_value name (c ∷ columns) (v ∷ row)
        → length values ≡ length kept
        → column_value name (or_first kept (c ∷ columns)) (or_first values (v ∷ row))
          ≡ column_value name (c ∷ columns) (v ∷ row)
    first_or_kept [] [] looked same = ground arith
    first_or_kept [] (w ∷ values) looked same = absurd (omega arith)
    first_or_kept (k ∷ kept) [] looked same = absurd (omega arith)
    first_or_kept (k ∷ kept) (w ∷ values) looked same = looked

-- Both parts of a list of names.
names_split :
    (refs xs ys : List Bytes)
    → All (λ n. one_of n refs ≡ true) (xs ++ ys)
    → All (λ n. one_of n refs ≡ true) xs × All (λ n. one_of n refs ≡ true) ys
names_split refs [] ys h = (tt, h)
names_split refs (x ∷ xs) ys (h, hs) =
    let (front, back) = names_split refs xs ys hs in ((h, front), back)

-- columnPruning keeps what an expression yields: on the columns that are kept for a set of names,
-- and the values of a row that belong to them, evalExpr gives an expression whose column names are
-- all in the set the outcome that it has on the whole row.
pub eval_expr_pruned :
    (floats : Floats) (refs : List Bytes) (columns : List ColumnDef) (row : Row) (e : Expr)
    → length row ≡ length columns
    → All (λ n. one_of n refs ≡ true) (column_names e)
    → eval_expr floats (kept_columns refs columns) (kept_row refs columns row) e
      ≡ eval_expr floats columns row e
unfolding eval_expr column_names
eval_expr_pruned floats refs columns row (literal kind s) size h = refl
eval_expr_pruned floats refs columns row (column_ref table name) size (h, hs) =
    column_value-kept refs name columns row size h
eval_expr_pruned floats refs columns row (binary left op right) size h =
    let (l, r) = names_split refs (column_names left) (column_names right) h in
    rw
      (
        eval_expr_pruned floats refs columns row left size l,
        eval_expr_pruned floats refs columns row right size r,
      )
      refl
eval_expr_pruned floats refs columns row (unary op operand) size h =
    rw (eval_expr_pruned floats refs columns row operand size h) refl
eval_expr_pruned floats refs columns row (func_call name args star) size h = refl
eval_expr_pruned floats refs columns row star_expr size h = refl
