-- ===== src/Recompute/Created.antt =====
-- What createSqliteFormulaColumn leaves (packages/db/src/sqlite/formulas.ts).
use byok_grid.Common.{◌≡◌, false, List, All}
use byok_grid.Formula.Values.{Runtime}
use byok_grid.Recompute.Row.{FormulaColumn}
use byok_grid.Recompute.Evaluated.{IsoFormulas}
use byok_grid.Recompute.Cells.{Keyed}
use byok_grid.Recompute.Consistent.{Consistent, Recorded}
use byok_grid.Recompute.Create.{GridRow, Table, formulas_of}

module _ (js : Runtime) where
  -- Each row that is not archived has right formulas, and cells with ids of their own.
  abbrev pub RowsConsistent : List (FormulaColumn js) → List (GridRow js) → Type 0
  RowsConsistent formulas =
      All (λ row. row.archived ≡ false → Consistent js formulas row.cells × Keyed js row.cells)

  -- The timestamps among the formulas' literals are as `toISOString` writes them, the dependencies of
  -- the formulas are recorded, and the formulas are right on every row.
  abbrev pub TableConsistent : Table js → Type 0
  TableConsistent table =
      IsoFormulas js (formulas_of js table.columns)
      × Recorded js (formulas_of js table.columns) table.dependencies
      × RowsConsistent (formulas_of js table.columns) table.rows
