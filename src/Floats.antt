-- ===== src/Floats.antt =====
-- IEEE 754 arithmetic on float64, as Go's operators and the package strconv have it. The source
-- only calls it, so it is a parameter of what uses it: a record of operations.
use my_sqlight.Prelude.{Bool, Option}
use my_sqlight.Prelude.Int64.{ℤ}
use my_sqlight.Bytes.{Bytes}
use my_sqlight.Catalog.Schema.{Float64}

pub record Floats : Type 0 where
  -- `float64(n)` and `int64(x)`
  pub of_int : ℤ → Float64
  pub to_int : Float64 → ℤ
  -- `-x`, `x + y`, `x - y`, `x * y`, `x / y`
  pub neg : Float64 → Float64
  pub add : Float64 → Float64 → Float64
  pub sub : Float64 → Float64 → Float64
  pub mul : Float64 → Float64 → Float64
  pub div : Float64 → Float64 → Float64
  -- `x == y`, `x < y`, `x <= y`
  pub eq : Float64 → Float64 → Bool
  pub lt : Float64 → Float64 → Bool
  pub le : Float64 → Float64 → Bool
  -- `strconv.ParseFloat(s, 64)`, `none` for an error
  pub parse : Bytes → Option Float64
  -- `fmt.Sprintf("%v", x)` and `strconv.FormatFloat(x, 'f', -1, 64)`
  pub print : Float64 → Bytes
  pub format : Float64 → Bytes
