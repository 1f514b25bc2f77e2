-- ===== src/Recompute/Returns.antt =====
-- When recomputeDependentSqliteFormulasForRow returns (packages/db/src/sqlite/formulas.ts).
use byok_grid.Common.{
  ℕ, ◌≡◌, inl, inr, refl, sym, subst, Bool, true, false, ◌&&◌, Option, none, some, List, [], ◌∷◌,
  ◌==◌, ==_iff, length, ok, if◌then◌else◌, Bool-cases, Option-cases, arith,
}
use byok_grid.Formula.Values.{Runtime, Value, CellValueType, same_type, type_of, Fits}
use byok_grid.Formula.Syntax.{Expression}
use byok_grid.Formula.Infer.{ColumnTypes, infer_type}
use byok_grid.Formula.Evaluate.{Values, evaluate}
use byok_grid.Formula.Sound.{ValuesFit, evaluate-Fits}
use byok_grid.Toposort.Edges.{Edges, HasEdge}
use byok_grid.Toposort.Order.{Acyclic}
use byok_grid.Toposort.Loop.{put}
use byok_grid.Workflow.Validate.{member}
use byok_grid.Recompute.Graph.{Dependency}
use byok_grid.Recompute.Row.{
  FormulaColumn, Cell, Row, cell_of, stored, formula_of, evaluate_column, evaluate_columns,
  write_cell, is_expected, recompute_reached, recompute,
}
use byok_grid.Recompute.Reached.{reach_loop-ReachedSet, ReachedSet}
use byok_grid.Recompute.Ordered.{inner_edges, evaluation_order-Follows}

-- All dependencies, as edges to the column that depends.
abbrev pub edges : List Dependency → Edges
edges [] = []
edges (d ∷ ds) = (d.depends_on_column_id, d.column_id) ∷ edges ds

pub inner_edges-edges :
    (deps : List Dependency) (reachable : List ℕ) (s t : ℕ)
    → HasEdge s t (inner_edges deps reachable)
    → HasEdge s t (edges deps)
inner_edges-edges [] reachable s t h = absurd h
inner_edges-edges (d ∷ ds) reachable s t h =
    kept (member d.column_id reachable && member d.depends_on_column_id reachable) h
      (inner_edges-edges ds reachable s t)
  where
    kept :
        (b : Bool)
        → HasEdge s t (
            if b
            then (d.depends_on_column_id, d.column_id) ∷ inner_edges ds reachable
            else inner_edges ds reachable)
        → (HasEdge s t (inner_edges ds reachable) → HasEdge s t (edges ds))
        → HasEdge s t (edges (d ∷ ds))
    kept true (inl here) rest = inl here
    kept true (inr there) rest = inr (rest there)
    kept false there rest = inr (rest there)

module _ (js : Runtime) where
  pub Fits-is_expected : (v : Value js) (t : CellValueType) → Fits v t → is_expected js v t ≡ true
  Fits-is_expected v t (inl e) =
      let at : same_type (type_of v) CellValueType.empty ≡ true =
        subst (λ u. same_type u CellValueType.empty ≡ true) (sym e) refl in
      rw at refl
  Fits-is_expected v t (inr e) =
      either (same_type (type_of v) CellValueType.empty)
        (subst (λ u. same_type (type_of v) u ≡ true) e (same_type_refl (type_of v)))
    where
      either :
          (b : Bool)
          → same_type (type_of v) t ≡ true
          → (if b then true else same_type (type_of v) t) ≡ true
      either true same = refl
      either false same = same

      same_type_refl : (u : CellValueType) → same_type u u ≡ true
      same_type_refl u = ground arith

  -- Each formula has an expression, which validateFormulaDefinition has given the column's type.
  abbrev pub Typed : List (FormulaColumn js) → ColumnTypes → Type 0
  Typed formulas types =
      (id : ℕ) (f : FormulaColumn js)
      → formula_of js formulas id ≡ some f
      → (e : Expression js.Number js.Json) × (f.expression ≡ some e)
        × (infer_type e types ≡ ok f.value_type)
        × (types f.id ≡ some f.value_type)

  ValuesFit-put :
      (values : Values js) (types : ColumnTypes) (column : ℕ) (v : Value js) (t : CellValueType)
      → ValuesFit js values types
      → types column ≡ some t
      → Fits v t
      → ValuesFit js (put values column (some v)) types
  ValuesFit-put values types column v t fit at fits c u typed = elim (Bool-cases (column == c)) [
    | inl e ↦
        let here : types c ≡ some t = subst (λ z. types z ≡ some t) ((==_iff column c).0 e) at in
        let same : t ≡ u = cc in rw e (subst (Fits v) same fits)
    | inr e ↦ rw e (fit c u typed)
  ]

  write_cell-values :
      (new_id : List (Cell js) → ℕ) (column : ℕ) (v : Value js) (o : Option (Cell js))
      (row : Row js)
      → (write_cell js new_id column v o row).values ≡ put row.values column (some v)
  unfolding write_cell
  write_cell-values new_id column v (some cell) row = refl
  write_cell-values new_id column v none row = ground arith

  module _ (new_id : List (Cell js) → ℕ) (formulas : List (FormulaColumn js)) (types : ColumnTypes)
      (typed : Typed formulas types) where
    -- A round returns a row whose values fit again.
    evaluate_column-returns :
        (id : ℕ) (row : Row js)
        → ValuesFit js row.values types
        → (row' : Row js) × (evaluate_column js new_id (formula_of js formulas id) row ≡ ok row')
          × ValuesFit js row'.values types
    unfolding evaluate_column
    evaluate_column-returns id row fit = elim (Option-cases (formula_of js formulas id)) [
      | inl missing ↦ rw missing (row, refl, fit)
      | inr (f, found) ↦
          let (e, expression, inferred, at) = typed id f found in
          let fits : Fits (evaluate js e row.values) f.value_type =
            evaluate-Fits js e row.values types fit inferred in
          let row' : Row js =
            write_cell js new_id f.id (evaluate js e row.values) (cell_of js row.cells f.id) row in
          rw found (
            row',
            rw expression (rw (Fits-is_expected (evaluate js e row.values) f.value_type fits) refl),
            subst (λ z. ValuesFit js z types)
                (sym (
                  write_cell-values new_id f.id (evaluate js e row.values)
                    (cell_of js row.cells f.id) row))
                (ValuesFit-put row.values types f.id (evaluate js e row.values) f.value_type fit at
                  fits),
          )
    ]

    evaluate_columns-returns :
        (ids : List ℕ) (row : Row js)
        → ValuesFit js row.values types
        → (row' : Row js) × (evaluate_columns js new_id formulas ids row ≡ ok row')
    unfolding evaluate_columns
    evaluate_columns-returns [] row fit = (row, refl)
    evaluate_columns-returns (id ∷ ids) row fit =
        let (row1, first, fit1) = evaluate_column-returns id row fit in
        let (row', rest) = evaluate_columns-returns ids row1 fit1 in (row', rw first rest)

    recompute_reached-returns :
        (deps : List Dependency) (changed : List ℕ) (cells : List (Cell js)) (reachable : List ℕ)
        → Acyclic (edges deps)
        → ValuesFit js (stored js cells) types
        → ReachedSet deps changed reachable
        → (cells' : List (Cell js)) × (ids : List ℕ) × (recompute_reached js new_id formulas deps
              cells
              (some reachable)
            ≡ ok (cells', ids))
    unfolding recompute_reached
    recompute_reached-returns deps changed cells [] acyclic fit set = (cells, [], refl)
    recompute_reached-returns deps changed cells (x ∷ xs) (rank, up) fit set =
        let (order, run, follows, within, whole) =
          evaluation_order-Follows deps (x ∷ xs) set.unique in
        let full : length order ≡ length (x ∷ xs) =
          whole.1 (rank, λ s t e. up s t (inner_edges-edges deps (x ∷ xs) s t e)) in
        let (row', ran) =
          evaluate_columns-returns order
            (record { values = stored js cells; cells = cells; changed = [] }) fit in
        let passes : (length order == length (x ∷ xs)) ≡ true =
          (==_iff (length order) (length (x ∷ xs))).1 full in
        (row'.cells, row'.changed, rw run (rw passes (rw ran refl)))

-- When the dependencies of the formulas have no cycle, each formula has an expression of its
-- column's type, and the row's values are empty or of their column's type, the recomputation
-- returns.
pub recompute-returns :
    (js : Runtime) (new_id : List (Cell js) → ℕ) (formulas : List (FormulaColumn js))
    (types : ColumnTypes) (deps : List Dependency) (changed : List ℕ) (cells : List (Cell js))
    → Typed js formulas types
    → Acyclic (edges deps)
    → ValuesFit js (stored js cells) types
    → (cells' : List (Cell js)) × (ids : List ℕ) × (recompute js new_id formulas deps changed cells
        ≡ ok (cells', ids))
unfolding recompute
recompute-returns js new_id formulas types deps [] cells typed acyclic fit = (cells, [], refl)
recompute-returns js new_id [] types deps (c ∷ changed) cells typed acyclic fit = (cells, [], refl)
recompute-returns js new_id (formula ∷ formulas) types deps (c ∷ changed) cells typed acyclic fit =
    let (reachable, run, set) = reach_loop-ReachedSet deps (c ∷ changed) in
    rw run (
      recompute_reached-returns js new_id (formula ∷ formulas) types typed deps (c ∷ changed) cells
        reachable acyclic fit set)
