-- ===== src/Executor/Select/Refines.antt =====
-- The pipeline of operators yields what the SELECT statement means.
use my_sqlight.Prelude.{◌≡◌, true, false, List, Result, ok}
use my_sqlight.Bytes.{Bytes}
use my_sqlight.Catalog.Schema.{TableDef, Float64}
use my_sqlight.Floats.{Floats}
use my_sqlight.Executor.Eval.{Row}
use my_sqlight.Executor.Operators.{Operator, feed_of}
use my_sqlight.Executor.Select.{Pipeline}
use my_sqlight.Executor.Select.Meaning.{Table}

-- No float64 is below another that is below it.
abbrev Asymmetric : Floats → Type 0
Asymmetric floats = (x y : Float64) → floats.lt x y ≡ true → floats.lt y x ≡ false

module _ {ℓ} {E : Type ℓ} where
  -- The operator that yields the rows.
  abbrev yields : List Row → Operator E
  yields rows = ok (feed_of rows)

  abbrev table_pipeline : Table → Pipeline E
  table_pipeline (rows, columns) = (yields rows, columns)

  -- Tables that open and read without an error.
  abbrev pub stored : (Bytes → TableDef × List Row) → Bytes → Result E (TableDef × Operator E)
  stored tables name = let (definition, rows) = tables name in ok (definition, yields rows)
