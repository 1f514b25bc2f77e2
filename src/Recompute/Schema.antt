-- ===== src/Recompute/Schema.antt =====
-- What `formulaExpressionSchema` (packages/domain/src/formulas.ts) and `cellValueSchema`
-- (packages/domain/src/cell-values.ts) accept, beyond the types of their parts.
use byok_grid.Common.{ℕ, zero, suc, Text, Bool, true, ◌&&◌, leb}
use byok_grid.Formula.Values.{Runtime, Value, CellValue}
use byok_grid.Formula.Syntax.{Expression, Arguments, column, literal, call, no_arguments, argument}

abbrev maximum_arguments : ℕ
maximum_arguments = 16

abbrev argument_count : {N J : Type 0} → Arguments N J → ℕ
argument_count no_arguments = zero
argument_count (argument e rest) = suc (argument_count rest)

-- `is_datetime` is `z.iso.datetime()`.
module _ (js : Runtime) (is_datetime : Text → Bool) where
  abbrev is_cell_value : Value js → Bool
  is_cell_value (CellValue.number n) = js.is_finite n
  is_cell_value (CellValue.timestamp t) = is_datetime t
  is_cell_value _ = true

  unfoldable mutual
    pub is_configuration : Expression js.Number js.Json → Bool
    is_configuration (column c) = true
    is_configuration (literal v) = is_cell_value v
    is_configuration (call f args) =
        leb 1 (argument_count args)
        && (leb (argument_count args) maximum_arguments && are_configurations args)

    pub are_configurations : Arguments js.Number js.Json → Bool
    are_configurations no_arguments = true
    are_configurations (argument e rest) = is_configuration e && are_configurations rest
