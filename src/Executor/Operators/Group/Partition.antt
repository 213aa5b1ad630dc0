-- ===== src/Executor/Operators/Group/Partition.antt =====
-- What Aggregate gathers for a group, said without the map of the groups: the rows with its key.
use my_sqlight.Prelude.{
  ◌≡◌, Bool, false, if◌then◌else◌, Option, some, none, List, [], ◌∷◌, Result, ok, err, panic, ◌>>=◌,
}
use my_sqlight.Bytes.{Bytes}
use my_sqlight.Maps.{bytes_beq}
use my_sqlight.Catalog.Schema.{ColumnDef}
use my_sqlight.Parser.Ast.{Expr}
use my_sqlight.Floats.{Floats}
use my_sqlight.Executor.Eval.{EvalError, Row}
use my_sqlight.Executor.Operators.Group.{
  AggState, GroupData, new_states, group_of, group_key, update_states,
}

abbrev has_key : Bytes → Result EvalError Bytes → Bool
has_key k (ok key) = bytes_beq k key
has_key k (err e) = false
has_key k panic = false

module _ (floats : Floats) (columns : List ColumnDef) (group_by exprs : List Expr) where
  -- The rows with this key, in their order.
  unfoldable pub rows_with : Bytes → List Row → List Row
  rows_with k [] = []
  rows_with k (row ∷ rows) =
      if has_key k (group_key floats columns group_by row)
      then row ∷ rows_with k rows
      else rows_with k rows

  -- The aggregates' states after these rows.
  unfoldable pub fold_states : List Row → List AggState → Result EvalError (List AggState)
  fold_states [] states = ok states
  fold_states (row ∷ rows) states =
      update_states floats columns exprs row states >>= (λ more. fold_states rows more)

  -- The group that begins as the first one and takes these rows.
  GroupedFrom : Option GroupData → List Row → Option GroupData → Type 0
  GroupedFrom before [] after = after ≡ before
  GroupedFrom before (row ∷ rows) after =
      let first = group_of exprs row before in
      (states : List AggState) × (fold_states (row ∷ rows) first.states ≡ ok states)
      × (after ≡ some (record { states = states; first_row = first.first_row }))

  -- No group for no rows; otherwise the first of the rows, and the states after all of them.
  unfoldable pub IsGroupOf : List Row → Option GroupData → Type 0
  IsGroupOf [] group = group ≡ none
  IsGroupOf (row ∷ rows) group =
      (states : List AggState) × (fold_states (row ∷ rows) (new_states exprs) ≡ ok states)
      × (group ≡ some (record { states = states; first_row = row }))
