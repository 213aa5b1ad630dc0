-- ===== src/Executor/Operators.antt =====
-- The operators of executor/filter.go, executor/project.go, executor/join.go and collectRows of
-- executor/executor.go. What the calls of Next return in turn, up to io.EOF or the first error, is
-- a feed; an operator is the outcome of its Open and, where that goes well, its feed. Every caller
-- stops at an error.
pub mod Sort
pub mod Group
pub mod Meaning
use my_sqlight.Prelude.Int64.{pos}
use my_sqlight.Prelude.{
  ℕ, zero, suc, Bool, true, false, Option, some, none, List, [], ◌∷◌, ◌++◌, Result, ok, err, panic,
  ◌>>=◌,
}
use my_sqlight.Catalog.Schema.{Value, ColumnDef, null_value, zero_value}
use my_sqlight.Parser.Ast.{Expr}
use my_sqlight.Floats.{Floats}
use my_sqlight.Executor.Eval.{
  Datum, nil_datum, bool_datum, int_datum, float_datum, text_datum, blob_datum, Eval, EvalError,
  Row, eval_expr,
}

-- An error of an expression, or of what reads the tables.
pub data OpError {ℓ} (E : Type ℓ) : Type ℓ where
  eval_error : EvalError → OpError E
  input_error : E → OpError E

pub data Feed {ℓ} (E : Type ℓ) : Type ℓ where
  end_of_rows : Feed E
  fault : OpError E → Feed E
  crash : Feed E
  next_row : Row → Feed E → Feed E

abbrev pub Operator {ℓ} : Type ℓ → Type ℓ
Operator E = Result (OpError E) (Feed E)

-- The result of evalExpr back into a value; a Boolean becomes NULL.
unfoldable pub to_value : Datum → Value
to_value nil_datum = null_value
to_value (bool_datum b) = null_value
to_value (int_datum n) = record {
  is_null = false;
  int_val = n;
  float_val = 0;
  text_val = [];
  blob_val = [];
}
to_value (float_datum x) = record {
  is_null = false;
  int_val = pos 0;
  float_val = x;
  text_val = [];
  blob_val = [];
}
to_value (text_datum s) = record {
  is_null = false;
  int_val = pos 0;
  float_val = 0;
  text_val = s;
  blob_val = [];
}
to_value (blob_datum b) = record {
  is_null = false;
  int_val = pos 0;
  float_val = 0;
  text_val = [];
  blob_val = b;
}

module _ (floats : Floats) (columns : List ColumnDef) where
  -- One row of Project.Next.
  unfoldable pub output_row : List Expr → Row → Result EvalError Row
  output_row [] row = ok []
  output_row (e ∷ exprs) row =
      eval_expr floats columns row e
      >>= (λ d. output_row exprs row >>= (λ values. ok (to_value d ∷ values)))

  -- No condition holds of every pair.
  unfoldable pub join_test : Option Expr → Row → Eval
  join_test none row = ok (bool_datum true)
  join_test (some condition) row = eval_expr floats columns row condition

module _ {ℓ} {E : Type ℓ} where
  -- What Next returns for one row of the input whose predicate has been evaluated.
  unfoldable pub keep_row : Eval → Row → Feed E → Feed E
  keep_row (ok (bool_datum true)) row rest = next_row row rest
  keep_row (ok d) row rest = rest
  keep_row (err e) row rest = fault (eval_error e)
  keep_row panic row rest = crash

  -- collectRows behind Open, and the loops of Sort.Open: all rows up to io.EOF.
  unfoldable pub drain : Feed E → Result (OpError E) (List Row)
  drain end_of_rows = ok []
  drain (fault e) = err e
  drain crash = panic
  drain (next_row row rest) = drain rest >>= (λ rows. ok (row ∷ rows))

  -- The feed of an operator that holds its rows.
  unfoldable pub feed_of : List Row → Feed E
  feed_of [] = end_of_rows
  feed_of (row ∷ rows) = next_row row (feed_of rows)

  unfoldable pub collect_rows : Operator E → Result (OpError E) (List Row)
  collect_rows op = op >>= drain

  -- Limit.Next, with what is left to give.
  unfoldable pub limit_feed : ℕ → Feed E → Feed E
  limit_feed zero input = end_of_rows
  limit_feed (suc n) end_of_rows = end_of_rows
  limit_feed (suc n) (fault e) = fault e
  limit_feed (suc n) crash = crash
  limit_feed (suc n) (next_row row rest) = next_row row (limit_feed n rest)

  unfoldable pub limit_op : ℕ → Operator E → Operator E
  limit_op n input = input >>= (λ feed. ok (limit_feed n feed))

  -- NestedLoopJoin.Open reads the first row of the left side.
  unfoldable pub first_read : Feed E → Feed E → Operator E
  first_read (fault e) joined = err e
  first_read crash joined = panic
  first_read left joined = ok joined

  module _ (floats : Floats) (columns : List ColumnDef) where
    unfoldable pub filter_feed : Expr → Feed E → Feed E
    filter_feed predicate end_of_rows = end_of_rows
    filter_feed predicate (fault e) = fault e
    filter_feed predicate crash = crash
    filter_feed predicate (next_row row rest) =
        keep_row (eval_expr floats columns row predicate) row (filter_feed predicate rest)

    unfoldable pub filter_op : Expr → Operator E → Operator E
    filter_op predicate input = input >>= (λ feed. ok (filter_feed predicate feed))

    unfoldable pub give_row : Result EvalError Row → Feed E → Feed E
    give_row (ok row) rest = next_row row rest
    give_row (err e) rest = fault (eval_error e)
    give_row panic rest = crash

    unfoldable pub project_feed : List Expr → Feed E → Feed E
    project_feed exprs end_of_rows = end_of_rows
    project_feed exprs (fault e) = fault e
    project_feed exprs crash = crash
    project_feed exprs (next_row row rest) =
        give_row (output_row floats columns exprs row) (project_feed exprs rest)

    unfoldable pub project_op : List Expr → Operator E → Operator E
    project_op exprs input = input >>= (λ feed. ok (project_feed exprs feed))

    -- NestedLoopJoin.Next for one left row, and what it returns for those behind it.
    unfoldable pub match_right : Option Expr → Row → Feed E → Feed E → Feed E
    match_right condition left end_of_rows later = later
    match_right condition left (fault e) later = fault e
    match_right condition left crash later = crash
    match_right condition left (next_row row right) later =
        keep_row (join_test floats columns condition (left ++ row)) (left ++ row)
          (match_right condition left right later)

    -- The right side is opened again for each left row, and gives the same rows.
    unfoldable pub join_feed : Option Expr → Feed E → Feed E → Feed E
    join_feed condition end_of_rows right = end_of_rows
    join_feed condition (fault e) right = fault e
    join_feed condition crash right = crash
    join_feed condition (next_row row left) right =
        match_right condition row right (join_feed condition left right)

    unfoldable pub join_op : Option Expr → Operator E → Operator E → Operator E
    join_op condition left right =
        left >>= (λ l. right >>= (λ r. first_read l (join_feed condition l r)))
