-- ===== src/Examples/Created.antt =====
-- The creation of a formula column (packages/db/src/sqlite/formulas.ts) in a table with one
-- number, one formula and one row.
use byok_grid.Common.{ℕ, Text, codes, false, Option, none, some, [], ◌∷◌}
use byok_grid.Formula.Values.{CellValueType}
use byok_grid.Formula.Syntax.{Expression}
use byok_grid.Language.Errors.{Reader}
use byok_grid.Recompute.Consistent.{Consistent}
use byok_grid.Recompute.Create.{Column, other_kind, formula_kind, Table}
use byok_grid.Examples.Formula.{js}
use byok_grid.Examples.Recompute.{plus_two, double, cell}

abbrev reader : Reader js
reader = record {
  to_number = λ t. none;
  parse_json = λ t. none;
  parse_json_string = λ t. none;
  read_date = λ t. none;
  normalize = λ t. t;
}

abbrev number_column : Column js
number_column = record {
  id = 1;
  name = codes "n";
  value_type = CellValueType.number;
  archived = false;
  kind = other_kind;
}

abbrev formula_column : ℕ → Text → Expression (Option ℕ) Unit → Column js
formula_column id name e = record {
  id = id;
  name = name;
  value_type = CellValueType.number;
  archived = false;
  kind = formula_kind (some e);
}

abbrev table : Table js
table = record {
  columns = number_column ∷ formula_column 2 (codes "a") plus_two ∷ [];
  dependencies = record { column_id = 2; depends_on_column_id = 1 } ∷ [];
  rows = record { id = 7; archived = false; cells = cell 11 1 4 1 ∷ cell 12 2 6 1 ∷ [] } ∷ [];
  mutations = [];
}

abbrev table_after : Table js
table_after = record {
  columns =
      number_column
      ∷ formula_column 2 (codes "a") plus_two
      ∷ formula_column 3 (codes "b") double
      ∷ [];
  dependencies =
      record { column_id = 2; depends_on_column_id = 1 }
      ∷ record { column_id = 3; depends_on_column_id = 2 }
      ∷ [];
  rows =
      record {
        id = 7;
        archived = false;
        cells = cell 11 1 4 1 ∷ cell 12 2 6 1 ∷ cell 24 3 12 1 ∷ [];
      }
      ∷ [];
  mutations = (7, 3 ∷ []) ∷ [];
}
