-- ===== src/Recompute/Create.antt =====
-- The creation of a formula column: createSqliteFormulaColumn of
-- packages/db/src/sqlite/formulas.ts, on the state of one table.
use byok_grid.Common.{
  ℕ, ◌==◌, Text, text_eq, trim, Bool, true, false, not, ◌&&◌, leb, ltb, Option, none, some, List,
  [], ◌∷◌, ◌++◌, any, keep, find, length, Result, ok, err, ◌>>=◌, ◌>>◌, require, if◌then◌else◌,
}
use byok_grid.Formula.Values.{Runtime, CellValueType}
use byok_grid.Formula.Syntax.{Expression, collect_column_ids}
use byok_grid.Formula.Infer.{FormulaError, ColumnTypes, validate_definition}
use byok_grid.Language.Errors.{LanguageError, Reader, SourceColumn}
use byok_grid.Language.Parser.{parse_source}
use byok_grid.Workflow.Validate.{member}
use byok_grid.Recompute.Access.{WorkspaceRole, has_workspace_permission, schema_manage}
use byok_grid.Recompute.Graph.{Dependency, RecomputeError}
use byok_grid.Recompute.Schema.{is_configuration}
use byok_grid.Recompute.Row.{Cell, FormulaColumn, recompute}

pub data CreateError : Type 0 where
  not_one_source bad_name not_accessible too_many_columns name_taken : CreateError
  bad_source : LanguageError → CreateError
  bad_configuration no_source_column sources_not_accessible : CreateError
  bad_definition : FormulaError → CreateError
  not_recomputed : RecomputeError → CreateError

abbrev pub maximum_table_columns : ℕ
maximum_table_columns = 256

-- What an inner call throws, as the error of the outer one.
abbrev pub thrown_as {ℓ} : {E F : Type 0} {A : Type ℓ} → (E → F) → Result E A → Result F A
thrown_as wrap (ok a) = ok a
thrown_as wrap (err e) = err (wrap e)

-- The type of a column that the formula reads.
abbrev pub type_in : List SourceColumn → ColumnTypes
type_in sources id = found_type (find (λ column. column.id == id) sources)
  where
    found_type : Option SourceColumn → Option CellValueType
    found_type none = none
    found_type (some column) = some column.value_type

-- The rows that `columnDependencies` gets for the new column.
unfoldable pub dependency_rows : ℕ → List ℕ → List Dependency
dependency_rows id [] = []
dependency_rows id (c ∷ cs) =
    record { column_id = id; depends_on_column_id = c } ∷ dependency_rows id cs

module _ (js : Runtime) where
  abbrev pub Formula : Type 0
  Formula = Expression js.Number js.Json

  -- A formula's expression is none when its configuration does not parse.
  pub data ColumnKind : Type 0 where
    formula_kind : Option Formula → ColumnKind
    other_kind : ColumnKind

  pub record Column : Type 0 where
    pub id : ℕ
    pub name : Text
    pub value_type : CellValueType
    pub archived : Bool
    pub kind : ColumnKind

  pub record GridRow : Type 0 where
    pub id : ℕ
    pub archived : Bool
    pub cells : List (Cell js)

  -- The table, its rows by position, and the mutations that have been recorded for them.
  pub record Table : Type 0 where
    pub columns : List Column
    pub dependencies : List Dependency
    pub rows : List GridRow
    pub mutations : List (ℕ × List ℕ)

  abbrev pub formula_row : Column → List (FormulaColumn js) → List (FormulaColumn js)
  formula_row column rest = by_kind column.kind
    where
      by_kind : ColumnKind → List (FormulaColumn js)
      by_kind other_kind = rest
      by_kind (formula_kind e) =
          if column.archived
          then rest
          else record { id = column.id; value_type = column.value_type; expression = e } ∷ rest

  -- The formula columns that are not archived.
  unfoldable pub formulas_of : List Column → List (FormulaColumn js)
  formulas_of [] = []
  formulas_of (column ∷ columns) = formula_row column (formulas_of columns)

  -- The columns that are not archived.
  unfoldable pub available : List Column → List SourceColumn
  available [] = []
  available (column ∷ columns) =
      let rest = available columns in
      if column.archived
      then rest
      else record { id = column.id; name = column.name; value_type = column.value_type } ∷ rest

  -- The cells of a row and the formulas whose cell was written; an archived row is left alone.
  unfoldable pub recompute_cells :
      (List (Cell js) → ℕ)
      → List (FormulaColumn js)
      → List Dependency
      → List ℕ
      → GridRow
      → Result CreateError (List (Cell js) × List ℕ)
  unfolding recompute
  recompute_cells new_id formulas deps changed row =
      if row.archived
      then ok (row.cells, [])
      else thrown_as not_recomputed (recompute js new_id formulas deps changed row.cells)

  -- `recordSqliteRowMutationAndMaybeQueueSettlement`, when a formula was written
  abbrev pub record_mutation : ℕ → List ℕ → List (ℕ × List ℕ) → List (ℕ × List ℕ)
  record_mutation id [] mutations = mutations
  record_mutation id (c ∷ ids) mutations = (id, c ∷ ids) ∷ mutations

  -- The rows, one after the other.
  unfoldable pub recompute_rows :
      (List (Cell js) → ℕ)
      → List (FormulaColumn js)
      → List Dependency
      → List ℕ
      → List GridRow
      → Result CreateError (List GridRow × List (ℕ × List ℕ))
  unfolding recompute_cells
  recompute_rows new_id formulas deps changed [] = ok ([], [])
  recompute_rows new_id formulas deps changed (row ∷ rows) =
      recompute_cells new_id formulas deps changed row >>= λ (cells, ids).
      recompute_rows new_id formulas deps changed rows >>= λ (others, mutations). ok (
        record { id = row.id; archived = row.archived; cells = cells } ∷ others,
        record_mutation row.id ids mutations,
      )

  -- Exactly one of the expression and the source.
  abbrev pub given :
      Reader js → List SourceColumn → Option Formula → Option Text → Result CreateError Formula
  given reader columns (some e) none = ok e
  given reader columns none (some source) =
      thrown_as bad_source (parse_source js reader columns source)
  given reader columns _ _ = err not_one_source

  abbrev pub is_one : Option Formula → Option Text → Bool
  is_one (some e) none = true
  is_one none (some source) = true
  is_one _ _ = false

  abbrev pub may_manage : Option WorkspaceRole → Bool
  may_manage none = false
  may_manage (some role) = has_workspace_permission role schema_manage

  -- The table with the column, its dependencies and the rows recomputed.
  unfoldable pub insert_formula :
      (List (Cell js) → ℕ) → ℕ → Text → CellValueType → Formula → Table → Result CreateError Table
  unfolding dependency_rows recompute_rows formulas_of
  insert_formula new_id id name value_type e table =
      let columns =
        table.columns
        ++ record {
          id = id;
          name = name;
          value_type = value_type;
          archived = false;
          kind = formula_kind (some e);
        }
          ∷ [] in
      let deps = table.dependencies ++ dependency_rows id (collect_column_ids e) in
      recompute_rows new_id (formulas_of columns) deps (collect_column_ids e) table.rows
      >>= λ (rows, mutations). ok (record {
        columns = columns;
        dependencies = deps;
        rows = rows;
        mutations = table.mutations ++ mutations;
      })

  -- The checks on the parsed expression, up to the column's type.
  unfoldable pub check_formula : List SourceColumn → Formula → Result CreateError CellValueType
  unfolding collect_column_ids validate_definition
  check_formula columns e =
      let ids = collect_column_ids e in
      let sources = keep (λ column. member column.id ids) columns in
      require (not (length ids == 0)) no_source_column
      >> (require (length sources == length ids) sources_not_accessible
          >> thrown_as bad_definition (validate_definition e (type_in sources)))

  -- `role` is the member's role in the workspace of the table, none when there is no such table.
  unfoldable pub create_formula_column :
      Reader js
      → (is_datetime : Text → Bool) → (lower : Text → Text) → (List (Cell js) → ℕ)
      → ℕ
      → Option WorkspaceRole
      → (expression : Option Formula) → (source : Option Text) → (name : Text) → Table
      → Result CreateError Table
  unfolding trim text_eq available parse_source is_configuration check_formula insert_formula
      has_workspace_permission
  create_formula_column reader is_datetime lower new_id id role expression source name table =
      let name = trim name in
      require (is_one expression source) not_one_source
      >> (require (not (length name == 0) && leb (length name) 120) bad_name
          >> (require (may_manage role) not_accessible
              >> (require (ltb (length table.columns) maximum_table_columns) too_many_columns
                  >> (require
                        (not
                          (any (λ column. text_eq (lower column.name) (lower name)) table.columns))
                        name_taken
                      >> (given reader (available table.columns) expression source >>= λ e.
                          require (is_configuration js is_datetime e) bad_configuration
                          >> (check_formula (available table.columns) e >>= λ value_type.
                              insert_formula new_id id name value_type e table))))))
