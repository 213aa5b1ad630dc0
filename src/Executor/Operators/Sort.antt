-- ===== src/Executor/Operators/Sort.antt =====
-- Sort and compareValues of executor/project.go.
pub mod Order
pub mod Sorted
use my_sqlight.Prelude.{
  Bool, true, false, if◌then◌else◌, Option, some, List, [], ◌∷◌, reverse, ok, err, panic, ◌>>=◌,
}
use my_sqlight.Bytes.{bytes_ltb, Bytes}
use my_sqlight.Catalog.Schema.{ColumnDef, Float64}
use my_sqlight.Parser.Ast.{OrderClause}
use my_sqlight.Floats.{Floats}
use my_sqlight.Executor.Eval.{Datum, nil_datum, Eval, Row, eval_expr, print_datum, to_float, is_nil}
use my_sqlight.Executor.Operators.{feed_of, Operator, drain}

-- The results -1, 0 and 1.
pub data Comparison : Type 0 where
  below same above : Comparison

unfoldable pub three_way : Bool → Bool → Comparison
three_way true gt = below
three_way false true = above
three_way false false = same

-- The value where evalExpr gives an error is nil, which the code goes on with.
abbrev pub or_nil : Eval → Datum
or_nil (ok d) = d
or_nil (err e) = nil_datum
or_nil panic = nil_datum

unfoldable pub order_texts : Bytes → Bytes → Comparison
order_texts s t = three_way (bytes_ltb s t) (bytes_ltb t s)

-- Two values of which one at least is nil.
unfoldable pub compare_nils : Bool → Bool → Comparison
compare_nils true true = same
compare_nils true false = below
compare_nils false r = above

unfoldable pub is_below : Comparison → Bool
is_below below = true
is_below c = false

unfoldable pub is_above : Comparison → Bool
is_above above = true
is_above c = false

-- One clause of ORDER BY decides unless the values are the same.
unfoldable pub decide : Bool → Comparison → Bool → Bool
decide desc same later = later
decide true c later = is_above c
decide false c later = is_below c

module _ {ℓ} {A : Type ℓ} (less : A → A → Bool) where
  -- The element moves back past those that it is less than; the list is in reverse.
  unfoldable pub insert_back : A → List A → List A
  insert_back x [] = x ∷ []
  insert_back x (y ∷ ys) = let rest = insert_back x ys in if less x y then y ∷ rest else x ∷ y ∷ ys

  unfoldable pub sort_onto : List A → List A → List A
  sort_onto sorted [] = sorted
  sort_onto sorted (x ∷ xs) = sort_onto (insert_back x sorted) xs

  -- `sort.SliceStable`, as the insertion sort that it is on its blocks; under a strict weak order
  -- the stable sorted order is the only one.
  unfoldable pub slice_stable : List A → List A
  slice_stable xs = reverse (sort_onto [] xs)

module _ (floats : Floats) where
  unfoldable pub compare_known : Datum → Datum → Option Float64 → Option Float64 → Comparison
  compare_known left right (some x) (some y) = three_way (floats.lt x y) (floats.lt y x)
  compare_known left right x y = order_texts (print_datum floats left) (print_datum floats right)

  unfoldable pub compare_values : Datum → Datum → Comparison
  compare_values left right =
      if is_nil left
      then compare_nils true (is_nil right)
      else if is_nil right
      then above
      else compare_known left right (to_float floats left) (to_float floats right)

  module _ (columns : List ColumnDef) where
    unfoldable pub row_less : List OrderClause → Row → Row → Bool
    row_less [] a b = false
    row_less (clause ∷ clauses) a b =
        decide clause.desc
          (compare_values (or_nil (eval_expr floats columns a clause.expr))
            (or_nil (eval_expr floats columns b clause.expr)))
          (row_less clauses a b)

    module _ {ℓ} {E : Type ℓ} where
      unfoldable pub sort_op : List OrderClause → Operator E → Operator E
      sort_op order_by input = input >>= (λ feed.
          drain feed >>= (λ rows. ok (feed_of (slice_stable (row_less order_by) rows))))
