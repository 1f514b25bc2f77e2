-- ===== src/Formula/Finite.antt =====
-- Whether the numbers that formulas produce are finite.
use byok_grid.Common.{ℕ, ◌≡◌, true}
use byok_grid.Formula.Values.{CellValue, Runtime, Value}
use byok_grid.Formula.Syntax.{Expression}
use byok_grid.Formula.Evaluate.{Values, evaluate, read_column}
use byok_grid.Formula.Preserved.{Basic, LiteralsHold, evaluate-Holds}

module _ (js : Runtime) where
  -- A number is finite; other values have none.
  abbrev pub IsFinite : Value js → Type 0
  IsFinite (CellValue.number n) = js.is_finite n ≡ true
  IsFinite _ = Unit

  -- The literals of an expression are finite, as its schema demands.
  abbrev pub FiniteLiterals : Expression js.Number js.Json → Type 0
  FiniteLiterals = LiteralsHold js IsFinite

  made : Basic js IsFinite
  made = record { empty = tt; text = λ t. tt; boolean = λ b. tt; number = λ n h. h }

  -- A formula whose literals are finite, over columns whose numbers are finite, never produces an
  -- infinite number or a NaN, not even from a division by zero or an overflow.
  pub evaluate-IsFinite :
      (e : Expression js.Number js.Json) (values : Values js)
      → ((c : ℕ) → IsFinite (read_column js (values c)))
      → FiniteLiterals e
      → IsFinite (evaluate js e values)
  evaluate-IsFinite e values columns literals =
      evaluate-Holds js IsFinite made e values columns literals
