-- ===== src/Recompute/Row.antt =====
-- The values and cells of one row while its formulas are evaluated
-- (packages/db/src/sqlite/formulas.ts, recomputeDependentSqliteFormulasForRow).
use byok_grid.Common.{
  ℕ, ◌+◌, ◌==◌, Bool, true, Option, none, some, List, [], ◌∷◌, ◌++◌, find, length, update_where,
  Result, ok, err, ◌>>=◌, ◌>>◌, require, if◌then◌else◌,
}
use byok_grid.Formula.Values.{Runtime, Value, CellValueType, same_type, type_of}
use byok_grid.Formula.Syntax.{Expression}
use byok_grid.Formula.Evaluate.{Values, evaluate, is_empty}
use byok_grid.Toposort.Loop.{put}
use byok_grid.Recompute.Storage.{Stored, serialize_cell_value, deserialize_cell_value}
use byok_grid.Recompute.Graph.{
  Dependency, RecomputeError, cyclic, evaluation_order, invalid_configuration, out_of_fuel,
  produced_other_type, reach_loop,
}

module _ (js : Runtime) where
  -- A formula column; its expression is none when its configuration does not parse.
  pub record FormulaColumn : Type 0 where
    pub id : ℕ
    pub value_type : CellValueType
    pub expression : Option (Expression js.Number js.Json)

  pub record Cell : Type 0 where
    pub id : ℕ
    pub column_id : ℕ
    pub content : Stored js
    pub succeeded : Bool
    pub version : ℕ

  pub record Row : Type 0 where
    pub values : Values js
    pub cells : List Cell
    pub changed : List ℕ

  abbrev pub value_of : Option Cell → Option (Value js)
  value_of none = none
  value_of (some cell) = some (deserialize_cell_value js cell.content)

  abbrev pub cell_of : List Cell → ℕ → Option Cell
  cell_of cells column = find (λ cell. cell.column_id == column) cells

  -- `new Map(rowCells.map(…))`; a row has one cell of a column at most.
  abbrev pub stored : List Cell → Values js
  stored cells column = value_of (cell_of cells column)

  abbrev pub rewritten : Value js → Cell → Cell
  rewritten value cell = record {
    id = cell.id;
    column_id = cell.column_id;
    content = serialize_cell_value js value;
    succeeded = true;
    version = cell.version + 1;
  }

  -- The insert, or the update of the cell that was found.
  unfoldable pub write_cell : (new_id : List Cell → ℕ) → ℕ → Value js → Option Cell → Row → Row
  unfolding update_where serialize_cell_value
  write_cell new_id column value none row =
      if is_empty js value
      then record {
        values = put row.values column (some value);
        cells = row.cells;
        changed = row.changed;
      }
      else record {
        values = put row.values column (some value);
        cells =
            row.cells
            ++ record {
              id = new_id row.cells;
              column_id = column;
              content = serialize_cell_value js value;
              succeeded = true;
              version = 1;
            }
              ∷ [];
        changed = row.changed ++ column ∷ [];
      }
  write_cell new_id column value (some cell) row = record {
    values = put row.values column (some value);
    cells = update_where (λ other. other.id == cell.id) (rewritten value) row.cells;
    changed = row.changed ++ column ∷ [];
  }

  -- `value.type === 'empty' || value.type === formula.valueType`
  abbrev pub is_expected : Value js → CellValueType → Bool
  is_expected value expected =
      if is_empty js value then true else same_type (type_of value) expected

  unfoldable pub evaluate_column :
      (List Cell → ℕ) → Option FormulaColumn → Row → Result RecomputeError Row
  unfolding evaluate write_cell
  evaluate_column new_id none row = ok row
  evaluate_column new_id (some formula) row = configured formula.expression
    where
      configured : Option (Expression js.Number js.Json) → Result RecomputeError Row
      configured none = err invalid_configuration
      configured (some e) =
          let value = evaluate js e row.values in
          require (is_expected value formula.value_type) produced_other_type
          >> ok (write_cell new_id formula.id value (cell_of row.cells formula.id) row)

  abbrev pub formula_of : List FormulaColumn → ℕ → Option FormulaColumn
  formula_of formulas id = find (λ formula. formula.id == id) formulas

  unfoldable pub evaluate_columns :
      (List Cell → ℕ) → List FormulaColumn → List ℕ → Row → Result RecomputeError Row
  unfolding evaluate_column
  evaluate_columns new_id formulas [] row = ok row
  evaluate_columns new_id formulas (id ∷ ids) row =
      evaluate_column new_id (formula_of formulas id) row >>= λ row.
      evaluate_columns new_id formulas ids row

  abbrev pub ordered_all : List ℕ → Option (List ℕ) → Result RecomputeError (List ℕ)
  ordered_all reachable none = err out_of_fuel
  ordered_all reachable (some ordered) =
      require (length ordered == length reachable) cyclic >> ok ordered

  abbrev pub written : Row → Result RecomputeError (List Cell × List ℕ)
  written row = ok (row.cells, row.changed)

  -- From the columns that the change reaches on.
  unfoldable pub recompute_reached :
      (List Cell → ℕ)
      → List FormulaColumn
      → List Dependency
      → List Cell
      → Option (List ℕ)
      → Result RecomputeError (List Cell × List ℕ)
  unfolding evaluation_order evaluate_columns deserialize_cell_value
  recompute_reached new_id formulas deps cells none = err out_of_fuel
  recompute_reached new_id formulas deps cells (some []) = ok (cells, [])
  recompute_reached new_id formulas deps cells (some (id ∷ ids)) =
      ordered_all (id ∷ ids) (evaluation_order deps (id ∷ ids)) >>= λ ordered.
      evaluate_columns new_id formulas ordered
        (record { values = stored cells; cells = cells; changed = [] })
      >>= written

  -- The cells of the row and the formulas whose cell was written.
  unfoldable pub recompute :
      (List Cell → ℕ)
      → List FormulaColumn
      → List Dependency
      → List ℕ
      → List Cell
      → Result RecomputeError (List Cell × List ℕ)
  unfolding reach_loop recompute_reached
  recompute new_id formulas deps [] cells = ok (cells, [])
  recompute new_id [] deps (c ∷ changed) cells = ok (cells, [])
  recompute new_id (formula ∷ formulas) deps (c ∷ changed) cells =
      recompute_reached new_id (formula ∷ formulas) deps cells
        (reach_loop deps (length (c ∷ changed) + length deps) (c ∷ changed) [])
