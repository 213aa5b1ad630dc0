-- ===== src/Executor/Eval/Total.antt =====
-- The evaluation of an expression does not panic.
use my_sqlight.Prelude.{
  if◌then◌else◌, Bool-cases, some, none, [], ◌∷◌, sym, subst, inl, inr, ◌≡◌, ◌≢◌, Bool, true, false,
  ok, err, panic, ◌>>=◌, List, [], ◌∷◌, arith, refl,
}
use my_sqlight.Prelude.Int64.{pos}
use my_sqlight.Parser.Ast.{
  BinaryOp, op_add, op_sub, op_mul, op_div, UnaryOp, LiteralKind, Expr, literal, column_ref, binary,
  unary, func_call, star_expr,
}
use my_sqlight.Floats.{Floats}
use my_sqlight.Catalog.Schema.{ColumnDef, Float64}
use my_sqlight.Bytes.{Bytes}
use my_sqlight.Executor.Eval.{
  apply_like, apply_or, apply_and, division_by_zero, or_zero, UnaryOp, to_float, Option,
  apply_binary_op, apply_values, apply_arith, apply_unary_op, apply_division, eval_expr, modulo,
  Expr, Datum, int_datum, Eval, Row, cell, column_value, literal_value, int_literal, float_literal,
  int_arith, float_arith, numeric_arith,
}

abbrev panics : Eval → Bool
panics panic = true
panics (ok d) = false
panics (err e) = false

>>=-panics :
    (first : Eval) (second : Datum → Eval)
    → panics first ≡ false
    → ((d : Datum) → panics (second d) ≡ false)
    → panics (first >>= second) ≡ false
>>=-panics (ok d) second h k = k d
>>=-panics (err e) second h k = refl
>>=-panics panic second h k = cc

column_value-panics :
    (name : Bytes) (columns : List ColumnDef) (row : Row)
    → panics (column_value name columns row) ≡ false
unfolding column_value cell
column_value-panics name [] row = refl
column_value-panics name (c ∷ columns) [] = ground (arith, column_value-panics name columns [])
column_value-panics name (c ∷ columns) (v ∷ row) =
    ground (arith, column_value-panics name columns row)

module _ (floats : Floats) where
  float_arith-panics : (op : BinaryOp) (x y : Float64) → panics (float_arith floats op x y) ≡ false
  unfolding float_arith
  float_arith-panics op x y = ground arith

  -- Only a division of integers by zero would panic.
  numeric_arith-panics :
      (op : BinaryOp) (left right : Datum) (x y : Float64)
      → (right ≡ int_datum (pos 0) → op ≢ op_div)
      → panics (numeric_arith floats op left right x y) ≡ false
  unfolding numeric_arith int_arith float_arith
  numeric_arith-panics op left right x y h = ground arith

  literal_value-panics :
      (kind : LiteralKind) (s : Bytes) → panics (literal_value floats kind s) ≡ false
  unfolding literal_value int_literal float_literal
  literal_value-panics kind s = ground arith

  apply_arith-panics :
      (op : BinaryOp) (left right : Datum) (x y : Option Float64)
      → (right ≡ int_datum (pos 0) → op ≢ op_div)
      → panics (apply_arith floats op left right x y) ≡ false
  unfolding apply_arith
  apply_arith-panics op left right (some x) (some y) h = numeric_arith-panics op left right x y h
  apply_arith-panics op left right none y h = refl
  apply_arith-panics op left right (some x) none h = refl

  apply_unary_op-panics : (op : UnaryOp) (d : Datum) → panics (apply_unary_op floats op d) ≡ false
  unfolding apply_unary_op
  apply_unary_op-panics op d = ground arith

  modulo-panics : (left right : Datum) → panics (modulo left right) ≡ false
  unfolding modulo
  modulo-panics left right = ground arith

  module _ (zero_is_zero : floats.eq (floats.of_int (pos 0)) 0 ≡ true) where
    not_zero :
        (right : Datum)
        → floats.eq (or_zero floats (to_float floats right)) 0 ≡ false
        → right ≡ int_datum (pos 0)
        → op_div ≢ op_div
    unfolding to_float
    not_zero right e h k =
        let f : floats.eq (floats.of_int (pos 0)) 0 ≡ false =
          subst (λ d. floats.eq (or_zero floats (to_float floats d)) 0 ≡ false) h e in
        cc

    apply_division-panics : (left right : Datum) → panics (apply_division floats left right) ≡ false
    unfolding apply_division to_float
    apply_division-panics left right =
        elim (Bool-cases (floats.eq (or_zero floats (to_float floats right)) 0)) [
          | inl e ↦ rw e refl
          | inr e ↦
              subst
                (λ b.
                  panics (
                    if b
                    then err division_by_zero
                    else apply_arith floats op_div left right (to_float floats left)
                        (to_float floats right))
                  ≡ false)
                (sym e)
                (apply_arith-panics op_div left right (to_float floats left) (to_float floats right)
                  (not_zero right e))
        ]

    safe_arith :
        (op : BinaryOp) (left right : Datum)
        → op ≢ op_div
        → panics (apply_arith floats op left right (to_float floats left) (to_float floats right))
          ≡ false
    safe_arith op left right h =
        apply_arith-panics op left right (to_float floats left) (to_float floats right) (λ e. h)

    apply_values-panics :
        (op : BinaryOp) (left right : Datum) → panics (apply_values floats op left right) ≡ false
    unfolding apply_values apply_and apply_or apply_like
    apply_values-panics op left right = ground (
      arith,
      apply_division-panics left right,
      modulo-panics left right,
      safe_arith op_add left right (λ e. cc),
      safe_arith op_sub left right (λ e. cc),
      safe_arith op_mul left right (λ e. cc),
    )

    eval_expr-panics :
        (columns : List ColumnDef) (row : Row) (e : Expr)
        → panics (eval_expr floats columns row e) ≡ false
    unfolding eval_expr apply_binary_op
    eval_expr-panics columns row (literal kind s) = literal_value-panics kind s
    eval_expr-panics columns row (column_ref table name) = column_value-panics name columns row
    eval_expr-panics columns row (binary left op right) =
        >>=-panics (eval_expr floats columns row left)
          (λ l. eval_expr floats columns row right >>= (λ r. apply_binary_op floats op l r))
          (eval_expr-panics columns row left)
          (λ l.
            >>=-panics (eval_expr floats columns row right) (λ r. apply_binary_op floats op l r)
              (eval_expr-panics columns row right)
              (λ r. ground (arith, apply_values-panics op l r)))
    eval_expr-panics columns row (unary op operand) =
        >>=-panics (eval_expr floats columns row operand) (λ d. apply_unary_op floats op d)
          (eval_expr-panics columns row operand) (apply_unary_op-panics op)
    eval_expr-panics columns row (func_call name args star) = refl
    eval_expr-panics columns row star_expr = refl

    -- evalExpr never panics, whatever the row and the columns are, since the check for a zero
    -- divisor, although made on float64, catches the integer 0.
    pub eval_expr_total :
        (columns : List ColumnDef) (row : Row) (e : Expr) → eval_expr floats columns row e ≢ panic
    eval_expr_total columns row e h =
        let f : panics panic ≡ false =
          subst (λ o. panics o ≡ false) h (eval_expr-panics columns row e) in
        cc
