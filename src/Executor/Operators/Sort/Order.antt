-- ===== src/Executor/Operators/Sort/Order.antt =====
-- The order that ORDER BY asks for, described by the first clause that tells two rows apart.
use my_sqlight.Prelude.{
  ◌≡◌, refl, ap, arith, Bool, true, false, if◌then◌else◌, Option, some, none, List, [], ◌∷◌, map,
}
use my_sqlight.Bytes.{bytes_ltb, Bytes}
use my_sqlight.Catalog.Schema.{ColumnDef, Float64}
use my_sqlight.Parser.Ast.{OrderClause}
use my_sqlight.Floats.{Floats}
use my_sqlight.Executor.Eval.{Datum, Row, eval_expr, print_datum, to_float}
use my_sqlight.Executor.Operators.Sort.{
  Comparison, below, same, above, three_way, compare_nils, order_texts, compare_known,
  compare_values, is_below, is_above, decide, or_nil, row_less,
}

-- The comparison of the same two the other way round.
unfoldable pub turned : Comparison → Comparison
turned below = above
turned same = same
turned above = below

-- The first that is not `same`.
unfoldable pub first_difference : List Comparison → Comparison
first_difference [] = same
first_difference (below ∷ cs) = below
first_difference (above ∷ cs) = above
first_difference (same ∷ cs) = first_difference cs

three_way-turned :
    (lt gt : Bool) → (lt ≡ true → gt ≡ false) → three_way gt lt ≡ turned (three_way lt gt)
unfolding three_way turned
three_way-turned true true h = absurd (true_false (h refl))
  where
    true_false : ¬ (true ≡ false)
    true_false e = cc
three_way-turned true false h = refl
three_way-turned false true h = refl
three_way-turned false false h = refl

bytes_ltb_asym : (s t : Bytes) → bytes_ltb s t ≡ true → bytes_ltb t s ≡ false
unfolding bytes_ltb
bytes_ltb_asym [] [] h = refl
bytes_ltb_asym [] (b ∷ bs) h = refl
bytes_ltb_asym (a ∷ s) [] h = cc
bytes_ltb_asym (a ∷ s) (b ∷ t) h = ground (arith, bytes_ltb_asym s t)

is_below-turned : (c : Comparison) → is_below (turned c) ≡ is_above c
unfolding is_below is_above turned
is_below-turned below = refl
is_below-turned same = refl
is_below-turned above = refl

not_above : (c : Comparison) → is_below c ≡ true → is_below (turned c) ≡ false
unfolding is_below turned
not_above below e = refl
not_above same e = cc
not_above above e = cc

first_difference-turned :
    (cs : List Comparison) → first_difference (map turned cs) ≡ turned (first_difference cs)
unfolding first_difference turned
first_difference-turned [] = refl
first_difference-turned (below ∷ cs) = refl
first_difference-turned (above ∷ cs) = refl
first_difference-turned (same ∷ cs) = first_difference-turned cs

module _ (floats : Floats) where
  module _ (columns : List ColumnDef) where
    -- How two rows compare by one clause, DESC turned round.
    unfoldable pub clause_order : Row → Row → OrderClause → Comparison
    clause_order a b clause =
        let c =
          compare_values floats (or_nil (eval_expr floats columns a clause.expr))
            (or_nil (eval_expr floats columns b clause.expr)) in
        if clause.desc then turned c else c

    -- The first row comes before the second one.
    unfoldable pub comes_first : List OrderClause → Row → Row → Bool
    comes_first clauses a b = is_below (first_difference (map (clause_order a b) clauses))

    decide-first_difference :
        (desc : Bool) (c : Comparison) (cs : List Comparison)
        → decide desc c (is_below (first_difference cs))
          ≡ is_below (first_difference ((if desc then turned c else c) ∷ cs))
    unfolding decide first_difference turned is_below is_above
    decide-first_difference true below cs = refl
    decide-first_difference true same cs = refl
    decide-first_difference true above cs = refl
    decide-first_difference false below cs = refl
    decide-first_difference false same cs = refl
    decide-first_difference false above cs = refl

    pub row_less-comes_first :
        (clauses : List OrderClause) (a b : Row)
        → row_less floats columns clauses a b ≡ comes_first clauses a b
    unfolding row_less comes_first clause_order first_difference is_below
    row_less-comes_first [] a b = refl
    row_less-comes_first (clause ∷ clauses) a b = rw (row_less-comes_first clauses a b) (
        decide-first_difference clause.desc
          (compare_values floats (or_nil (eval_expr floats columns a clause.expr))
            (or_nil (eval_expr floats columns b clause.expr)))
          (map (clause_order a b) clauses))

  order_texts-turned :
      (left right : Datum)
      → order_texts (print_datum floats right) (print_datum floats left)
        ≡ turned (order_texts (print_datum floats left) (print_datum floats right))
  unfolding order_texts
  order_texts-turned left right =
      three_way-turned (bytes_ltb (print_datum floats left) (print_datum floats right))
        (bytes_ltb (print_datum floats right) (print_datum floats left))
        (bytes_ltb_asym (print_datum floats left) (print_datum floats right))

  module _ (asym : (x y : Float64) → floats.lt x y ≡ true → floats.lt y x ≡ false) where
    compare_known-turned :
        (left right : Datum) (x y : Option Float64)
        → compare_known floats right left y x ≡ turned (compare_known floats left right x y)
    unfolding compare_known
    compare_known-turned left right (some x) (some y) =
        three_way-turned (floats.lt x y) (floats.lt y x) (asym x y)
    compare_known-turned left right (some x) none = order_texts-turned left right
    compare_known-turned left right none (some y) = order_texts-turned left right
    compare_known-turned left right none none = order_texts-turned left right

    compare_values-turned :
        (left right : Datum)
        → compare_values floats right left ≡ turned (compare_values floats left right)
    unfolding compare_values compare_nils turned
    compare_values-turned left right =
        ground
          (arith, compare_known-turned left right (to_float floats left) (to_float floats right))

    module _ (columns : List ColumnDef) where
      clause_order-turned :
          (a b : Row) (clause : OrderClause)
          → clause_order columns b a clause ≡ turned (clause_order columns a b clause)
      unfolding clause_order
      clause_order-turned a b clause = if-turned clause.desc _ _ (
          compare_values-turned (or_nil (eval_expr floats columns a clause.expr))
            (or_nil (eval_expr floats columns b clause.expr)))
        where
          if-turned :
              (desc : Bool) (c d : Comparison)
              → d ≡ turned c
              → (if desc then turned d else d) ≡ turned (if desc then turned c else c)
          if-turned true c d e = ap turned e
          if-turned false c d e = e

      orders-turned :
          (clauses : List OrderClause) (a b : Row)
          → map (clause_order columns b a) clauses
            ≡ map turned (map (clause_order columns a b) clauses)
      orders-turned [] a b = refl
      orders-turned (clause ∷ clauses) a b =
          rw (clause_order-turned a b clause, orders-turned clauses a b) refl

      -- Of two rows, not each comes before the other.
      pub comes_first_asym :
          (clauses : List OrderClause) (a b : Row)
          → comes_first columns clauses a b ≡ true
          → comes_first columns clauses b a ≡ false
      unfolding comes_first
      comes_first_asym clauses a b h =
          rw
            (
              orders-turned clauses a b,
              first_difference-turned (map (clause_order columns a b) clauses),
            )
            (not_above (first_difference (map (clause_order columns a b) clauses)) h)
