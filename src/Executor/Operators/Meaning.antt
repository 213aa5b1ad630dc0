-- ===== src/Executor/Operators/Meaning.antt =====
-- What the operators mean, on lists of rows with no iterator: selection, projection and the
-- selection from a product; and that the operators yield it.
use my_sqlight.Prelude.{
  ok-eq, ◌∙◌, ℕ, zero, suc, ◌≡◌, refl, ap, Bool, true, false, if◌then◌else◌, Option, List, [], ◌∷◌,
  ◌++◌, map, take, Result, ok, ◌>>=◌, >>=-eq-ok,
}
use my_sqlight.Catalog.Schema.{ColumnDef}
use my_sqlight.Parser.Ast.{Expr}
use my_sqlight.Floats.{Floats}
use my_sqlight.Executor.Eval.{
  Datum, nil_datum, bool_datum, int_datum, float_datum, text_datum, blob_datum, Eval, EvalError,
  Row, eval_expr,
}
use my_sqlight.Executor.Operators.{
  next_row, keep_row, feed_of, filter_feed, project_feed, output_row, give_row, limit_feed,
  match_right, join_feed, join_test, drain,
}

abbrev pub is_true : Datum → Bool
is_true (bool_datum true) = true
is_true d = false

-- The rows for which the test is the Boolean true.
unfoldable pub select_rows : (Row → Eval) → List Row → Result EvalError (List Row)
select_rows test [] = ok []
select_rows test (row ∷ rows) =
    test row
    >>= (λ d. select_rows test rows >>= (λ kept. ok (if is_true d then row ∷ kept else kept)))

unfoldable pub map_rows : (Row → Result EvalError Row) → List Row → Result EvalError (List Row)
map_rows f [] = ok []
map_rows f (row ∷ rows) = f row >>= (λ out. map_rows f rows >>= (λ outs. ok (out ∷ outs)))

-- Each left row with all right rows, in order.
unfoldable pub join_rows : (Row → Eval) → List Row → List Row → Result EvalError (List Row)
join_rows test [] right = ok []
join_rows test (row ∷ left) right =
    select_rows test (map (λ r. row ++ r) right)
    >>= (λ matches. join_rows test left right >>= (λ others. ok (matches ++ others)))

if-append :
    (b : Bool) (row : Row) (rows later : List Row)
    → (if b then row ∷ (rows ++ later) else rows ++ later)
      ≡ (if b then row ∷ rows else rows) ++ later
if-append true row rows later = refl
if-append false row rows later = refl

module _ {ℓ} {E : Type ℓ} where
  keep_row-feed_of :
      (d : Datum) (row : Row) (rows : List Row)
      → keep_row {E = E} (ok d) row (feed_of rows)
        ≡ feed_of (if is_true d then row ∷ rows else rows)
  unfolding keep_row feed_of
  keep_row-feed_of nil_datum row rows = refl
  keep_row-feed_of (bool_datum true) row rows = refl
  keep_row-feed_of (bool_datum false) row rows = refl
  keep_row-feed_of (int_datum n) row rows = refl
  keep_row-feed_of (float_datum x) row rows = refl
  keep_row-feed_of (text_datum s) row rows = refl
  keep_row-feed_of (blob_datum b) row rows = refl

  pub drain-feed_of : (rows : List Row) → drain {E = E} (feed_of rows) ≡ ok rows
  unfolding drain feed_of
  drain-feed_of [] = refl
  drain-feed_of (row ∷ rows) = rw (drain-feed_of rows) refl

  pub limit_feed-feed_of :
      (n : ℕ) (rows : List Row) → limit_feed {E = E} n (feed_of rows) ≡ feed_of (take n rows)
  unfolding limit_feed feed_of
  limit_feed-feed_of zero [] = refl
  limit_feed-feed_of zero (row ∷ rows) = refl
  limit_feed-feed_of (suc n) [] = refl
  limit_feed-feed_of (suc n) (row ∷ rows) = ap (next_row row) (limit_feed-feed_of n rows)

  module _ (floats : Floats) (columns : List ColumnDef) where
    pub filter_feed-feed_of :
        (predicate : Expr) (rows kept : List Row)
        → select_rows (λ row. eval_expr floats columns row predicate) rows ≡ ok kept
        → filter_feed {E = E} floats columns predicate (feed_of rows) ≡ feed_of kept
    unfolding filter_feed feed_of select_rows
    filter_feed-feed_of predicate [] kept h = ap feed_of (ok-eq h)
    filter_feed-feed_of predicate (row ∷ rows) kept h =
        let (d, test, more) = >>=-eq-ok (eval_expr floats columns row predicate) _ h in
        let (rest, tests, result) =
          >>=-eq-ok (select_rows (λ r. eval_expr floats columns r predicate) rows) _ more in
        rw (test, filter_feed-feed_of predicate rows rest tests)
          (keep_row-feed_of d row rest ∙ ap feed_of (ok-eq result))

    pub project_feed-feed_of :
        (exprs : List Expr) (rows outs : List Row)
        → map_rows (output_row floats columns exprs) rows ≡ ok outs
        → project_feed {E = E} floats columns exprs (feed_of rows) ≡ feed_of outs
    unfolding project_feed feed_of map_rows give_row
    project_feed-feed_of exprs [] outs h = ap feed_of (ok-eq h)
    project_feed-feed_of exprs (row ∷ rows) outs h =
        let (out, one, more) = >>=-eq-ok (output_row floats columns exprs row) _ h in
        let (rest, others, result) =
          >>=-eq-ok (map_rows (output_row floats columns exprs) rows) _ more in
        rw (one, project_feed-feed_of exprs rows rest others) (ap feed_of (ok-eq result))

    match_right-feed_of :
        (condition : Option Expr) (left : Row) (rows matches later : List Row)
        → select_rows (join_test floats columns condition) (map (λ r. left ++ r) rows) ≡ ok matches
        → match_right {E = E} floats columns condition left (feed_of rows) (feed_of later)
          ≡ feed_of (matches ++ later)
    unfolding match_right feed_of select_rows
    match_right-feed_of condition left [] matches later h = ap (λ m. feed_of (m ++ later)) (ok-eq h)
    match_right-feed_of condition left (row ∷ rows) matches later h =
        let (d, test, more) = >>=-eq-ok (join_test floats columns condition (left ++ row)) _ h in
        let (rest, tests, result) =
          >>=-eq-ok (select_rows (join_test floats columns condition) (map (λ r. left ++ r) rows)) _
            more in
        rw (test, match_right-feed_of condition left rows rest later tests)
          (keep_row-feed_of d (left ++ row) (rest ++ later)
            ∙ ap feed_of (
                if-append (is_true d) (left ++ row) rest later
                ∙ ap (λ m. m ++ later) (ok-eq result)))

    pub join_feed-feed_of :
        (condition : Option Expr) (left right joined : List Row)
        → join_rows (join_test floats columns condition) left right ≡ ok joined
        → join_feed {E = E} floats columns condition (feed_of left) (feed_of right) ≡ feed_of joined
    unfolding join_feed feed_of join_rows
    join_feed-feed_of condition [] right joined h = ap feed_of (ok-eq h)
    join_feed-feed_of condition (row ∷ left) right joined h =
        let (matches, one, more) =
          >>=-eq-ok (select_rows (join_test floats columns condition) (map (λ r. row ++ r) right)) _
            h in
        let (rest, others, result) =
          >>=-eq-ok (join_rows (join_test floats columns condition) left right) _ more in
        rw (join_feed-feed_of condition left right rest others)
          (match_right-feed_of condition row right matches rest one ∙ ap feed_of (ok-eq result))
