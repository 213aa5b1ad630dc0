-- ===== src/Executor/Operators/Group.antt =====
-- Aggregate of executor/aggregate.go.
pub mod Partition
use my_sqlight.Prelude.{
  ◌||◌, not, Bool, true, false, if◌then◌else◌, Option, some, none, List, [], ◌∷◌, ◌++◌, Result, ok,
  err, panic, ◌>>=◌,
}
use my_sqlight.Prelude.Int64.{is_zero, ℤ, pos, add_int}
use my_sqlight.Bytes.{Bytes}
use my_sqlight.Maps.{Map, bytes_eq, find, put}
use my_sqlight.Catalog.Schema.{Value, ColumnDef, Float64, null_value}
use my_sqlight.Parser.Ast.{Expr, Exprs, func_call, no_exprs, one_more}
use my_sqlight.Floats.{Floats}
use my_sqlight.Executor.Eval.{
  float_datum, int_datum, Datum, nil_datum, Eval, EvalError, Row, eval_expr, print_datum, to_float,
}
use my_sqlight.Executor.Operators.{
  OpError, eval_error, Feed, end_of_rows, fault, crash, next_row, Operator, feed_of, to_value,
}
use my_sqlight.Executor.Operators.Sort.{compare_values, is_below, is_above}

-- The names of updateAggState and finalizeAgg, `agg_other` for any other.
pub data AggKind : Type 0 where
  agg_count agg_sum agg_avg agg_min agg_max agg_other : AggKind

abbrev pub agg_names : Map Bytes AggKind
agg_names =
    (67 ∷ 79 ∷ 85 ∷ 78 ∷ 84 ∷ [], agg_count)
    ∷ (83 ∷ 85 ∷ 77 ∷ [], agg_sum)
    ∷ (65 ∷ 86 ∷ 71 ∷ [], agg_avg)
    ∷ (77 ∷ 73 ∷ 78 ∷ [], agg_min)
    ∷ (77 ∷ 65 ∷ 88 ∷ [], agg_max)
    ∷ []

abbrev pub or_other : Option AggKind → AggKind
or_other (some kind) = kind
or_other none = agg_other

unfoldable pub agg_kind : Bytes → AggKind
agg_kind name = or_other (find name agg_names)

pub record AggState : Type 0 where
  pub count : ℤ
  pub sum : Float64
  pub min_val : Datum
  pub max_val : Datum
  pub has_value : Bool

abbrev pub new_state : AggState
new_state = record {
  count = pos 0;
  sum = 0;
  min_val = nil_datum;
  max_val = nil_datum;
  has_value = false;
}

pub record GroupData : Type 0 where
  pub states : List AggState
  pub first_row : Row

-- The groups in the order of their first rows.
abbrev pub Groups : Type 0
Groups = Map Bytes GroupData

unfoldable pub count_row : AggState → AggState
count_row state = record state { count = add_int state.count (pos 1) }

unfoldable pub new_states : List Expr → List AggState
new_states [] = []
new_states (e ∷ exprs) = new_state ∷ new_states exprs

-- The text `__all__`, the key of the only group where there is no GROUP BY.
abbrev pub all_key : Bytes
all_key = 95 ∷ 95 ∷ 97 ∷ 108 ∷ 108 ∷ 95 ∷ 95 ∷ []

unfoldable pub group_of : List Expr → Row → Option GroupData → GroupData
group_of exprs row none = record { states = new_states exprs; first_row = row }
group_of exprs row (some group) = group

module _ {ℓ} {E : Type ℓ} where
  unfoldable pub lift_eval {κ} : {A : Type κ} → Result EvalError A → Result (OpError E) A
  lift_eval (ok a) = ok a
  lift_eval (err e) = err (eval_error e)
  lift_eval panic = panic

module _ (floats : Floats) where
  unfoldable pub add_number : Option Float64 → AggState → AggState
  add_number none state = state
  add_number (some x) state = count_row (record state { sum = floats.add state.sum x })

  unfoldable pub take_min : Datum → AggState → AggState
  take_min value state =
      if not state.has_value || is_below (compare_values floats value state.min_val)
      then record state { min_val = value; has_value = true }
      else state

  unfoldable pub take_max : Datum → AggState → AggState
  take_max value state =
      if not state.has_value || is_above (compare_values floats value state.max_val)
      then record state { max_val = value; has_value = true }
      else state

  unfoldable pub add_value : AggKind → Datum → AggState → AggState
  add_value kind nil_datum state = state
  add_value agg_count value state = count_row state
  add_value agg_sum value state = add_number (to_float floats value) state
  add_value agg_avg value state = add_number (to_float floats value) state
  add_value agg_min value state = take_min value state
  add_value agg_max value state = take_max value state
  add_value agg_other value state = state

  unfoldable pub finalize : AggKind → AggState → Value
  finalize agg_count state = to_value (int_datum state.count)
  finalize agg_sum state =
      if is_zero state.count then null_value else to_value (float_datum state.sum)
  finalize agg_avg state =
      if is_zero state.count
      then null_value
      else to_value (float_datum (floats.div state.sum (floats.of_int state.count)))
  finalize agg_min state = if state.has_value then to_value state.min_val else null_value
  finalize agg_max state = if state.has_value then to_value state.max_val else null_value
  finalize agg_other state = null_value

  module _ (columns : List ColumnDef) where
    -- The first argument, nil where there is none.
    unfoldable pub arg_value : Exprs → Row → Eval
    arg_value no_exprs row = ok nil_datum
    arg_value (one_more e args) row = eval_expr floats columns row e

    unfoldable pub update_agg_state :
        Bytes → Exprs → Bool → Row → AggState → Result EvalError AggState
    update_agg_state name args true row state = ok (count_row state)
    update_agg_state name args false row state =
        arg_value args row >>= (λ value. ok (add_value (agg_kind name) value state))

    unfoldable pub update_slot : Expr → Row → AggState → Result EvalError AggState
    update_slot (func_call name args star) row state = update_agg_state name args star row state
    update_slot e row state = ok state

    -- The state of each expression of the SELECT list.
    unfoldable pub update_states :
        List Expr → Row → List AggState → Result EvalError (List AggState)
    update_states [] row states = ok states
    update_states (e ∷ exprs) row [] = panic
    update_states (e ∷ exprs) row (state ∷ states) =
        update_slot e row state
        >>= (λ new. update_states exprs row states >>= (λ news. ok (new ∷ news)))

    unfoldable pub joined_keys : List Expr → Row → Result EvalError Bytes
    joined_keys [] row = ok []
    joined_keys (e ∷ exprs) row = eval_expr floats columns row e >>= (λ value.
        joined_keys exprs row >>= (λ rest. ok (print_datum floats value ++ (0 ∷ rest))))

    unfoldable pub group_key : List Expr → Row → Result EvalError Bytes
    group_key [] row = ok all_key
    group_key (e ∷ exprs) row = joined_keys (e ∷ exprs) row

    -- One row of the input into its group.
    unfoldable pub group_row : List Expr → List Expr → Row → Groups → Result EvalError Groups
    group_row group_by exprs row groups = group_key group_by row >>= (λ key.
        let group = group_of exprs row (find key groups) in
        update_states exprs row group.states
        >>= (λ states. ok (put key (record group { states = states }) groups)))

    unfoldable pub output_slot : Expr → Row → AggState → Result EvalError Value
    output_slot (func_call name args star) row state = ok (finalize (agg_kind name) state)
    output_slot e row state = eval_expr floats columns row e >>= (λ value. ok (to_value value))

    unfoldable pub output_values : List Expr → Row → List AggState → Result EvalError Row
    output_values [] row states = ok []
    output_values (e ∷ exprs) row [] = panic
    output_values (e ∷ exprs) row (state ∷ states) =
        output_slot e row state
        >>= (λ value. output_values exprs row states >>= (λ values. ok (value ∷ values)))

    unfoldable pub output_groups : List Expr → Groups → Result EvalError (List Row)
    output_groups exprs [] = ok []
    output_groups exprs ((key, group) ∷ groups) =
        output_values exprs group.first_row group.states
        >>= (λ row. output_groups exprs groups >>= (λ rows. ok (row ∷ rows)))

    module _ {ℓ} {E : Type ℓ} where
      unfoldable pub group_feed :
          List Expr → List Expr → Feed E → Groups → Result (OpError E) Groups
      group_feed group_by exprs end_of_rows groups = ok groups
      group_feed group_by exprs (fault e) groups = err e
      group_feed group_by exprs crash groups = panic
      group_feed group_by exprs (next_row row rest) groups =
          lift_eval (group_row group_by exprs row groups)
          >>= (λ more. group_feed group_by exprs rest more)

      unfoldable pub aggregate_op : List Expr → List Expr → Operator E → Operator E
      aggregate_op group_by exprs input = input >>= (λ feed.
          group_feed group_by exprs feed []
          >>= (λ groups. lift_eval (output_groups exprs groups) >>= (λ rows. ok (feed_of rows))))
