-- ===== src/Examples/Recompute.antt =====
-- The recomputation of formula columns (packages/db/src/sqlite/formulas.ts) on a row with one
-- number and two formulas.
use byok_grid.Common.{
  ℕ, ◌+◌, ◌≡◌, ◌≤◌, ◌<◌, ◌⊎◌, inl, inr, refl, ap, sym, subst, ◌∙◌, arith, true, false, Option, some,
  List, [], ◌∷◌, ◌==◌, ==_iff, Bool-cases, ok, err,
}
use byok_grid.Formula.Values.{CellValueType, CellValue}
use byok_grid.Formula.Syntax.{
  Function, Expression, column, literal, call, no_arguments, argument, collect_column_ids,
}
use byok_grid.Formula.Evaluate.{evaluate, evaluate_call, read_column}
use byok_grid.Formula.Frame.{contains}
use byok_grid.Formula.Infer.{ColumnTypes, infer_type, infer_call}
use byok_grid.Formula.Sound.{ValuesFit}
use byok_grid.Toposort.Edges.{HasEdge}
use byok_grid.Toposort.Order.{Acyclic}
use byok_grid.Recompute.Refuses.{BadFormula, recompute-errs}
use byok_grid.Recompute.Returns.{Typed, edges, recompute-returns}
use byok_grid.Toposort.Loop.{release}
use byok_grid.Workflow.Validate.{member}
use byok_grid.Recompute.Graph.{Dependency, RecomputeError, dependents}
use byok_grid.Recompute.Storage.{IsoLiterals, serialize_cell_value, deserialize_cell_value}
use byok_grid.Recompute.Row.{FormulaColumn, Cell, stored, recompute}
use byok_grid.Recompute.Cells.{has_id, Keyed}
use byok_grid.Recompute.Evaluated.{IsFormula, IsoFormulas}
use byok_grid.Recompute.Consistent.{Consistent, Recorded, OthersConsistent, recompute-Consistent}
use byok_grid.Examples.Formula.{js, length-zeros}

abbrev pub plus_two : Expression (Option ℕ) Unit
plus_two =
    call Function.add
      (argument (column 1) (argument (literal (CellValue.number (some 2))) no_arguments))

abbrev pub double : Expression (Option ℕ) Unit
double = call Function.add (argument (column 2) (argument (column 2) no_arguments))

abbrev formulas : List (FormulaColumn js)
formulas =
    record { id = 3; value_type = CellValueType.number; expression = some double }
    ∷ record { id = 2; value_type = CellValueType.number; expression = some plus_two }
    ∷ []

abbrev dependencies : List Dependency
dependencies =
    record { column_id = 3; depends_on_column_id = 2 }
    ∷ record { column_id = 2; depends_on_column_id = 1 }
    ∷ []

abbrev pub cell : ℕ → ℕ → ℕ → ℕ → Cell js
cell id of_column n version = record {
  id = id;
  column_id = of_column;
  content = serialize_cell_value js (CellValue.number (some n));
  succeeded = true;
  version = version;
}

abbrev row_edited : List (Cell js)
row_edited = cell 11 1 4 2 ∷ cell 12 2 5 1 ∷ cell 13 3 10 1 ∷ []

abbrev row_after : List (Cell js)
row_after = cell 11 1 4 2 ∷ cell 12 2 6 2 ∷ cell 13 3 12 2 ∷ []

abbrev pub next_id : List (Cell js) → ℕ
next_id [] = 1
next_id (c ∷ cs) = c.id + next_id cs

recomputed :
    recompute js next_id formulas dependencies (1 ∷ []) row_edited ≡ ok (row_after, 2 ∷ 3 ∷ [])
unfolding recompute release evaluate_call serialize_cell_value deserialize_cell_value
recomputed = refl

next_id_positive : (cells : List (Cell js)) → 1 ≤ next_id cells
next_id_positive [] = omega arith
next_id_positive (c ∷ cs) = omega (arith, next_id_positive cs)

has_id-next_id : (cells : List (Cell js)) (k : ℕ) → next_id cells ≤ k → has_id js k cells ≡ false
has_id-next_id [] k h = refl
has_id-next_id (c ∷ cs) k h = ground (arith, has_id-next_id cs k, next_id_positive cs)

pub next_id-fresh : (cells : List (Cell js)) → has_id js (next_id cells) cells ≡ false
next_id-fresh cells = has_id-next_id cells (next_id cells) (omega arith)

same_column :
    {g f : FormulaColumn js} → ◌≡◌ {A = Option (FormulaColumn js)} (some g) (some f) → g ≡ f
same_column found = cc

same_formula :
    {g f : FormulaColumn js} {d e : Expression (Option ℕ) Unit}
    → ◌≡◌ {A = Option (FormulaColumn js)} (some g) (some f)
    → g.expression ≡ some d
    → f.expression ≡ some e
    → d ≡ e
same_formula {g} {f} {d} {e} found left right =
    let same : g ≡ f = same_column found in
    let joined : ◌≡◌ {A = Option (Expression (Option ℕ) Unit)} (some d) (some e) =
      sym left ∙ (ap (λ z. z.expression) same ∙ right) in
    cc

formula_cases :
    (id : ℕ) (e : Expression (Option ℕ) Unit)
    → IsFormula js formulas id e
    → ((3 ≡ id) × (double ≡ e)) ⊎ ((2 ≡ id) × (plus_two ≡ e))
formula_cases id e (f, found, at) = elim (Bool-cases (3 == id)) [
  | inl third ↦ inl ((==_iff 3 id).0 third, same_formula (rw third at found) refl at)
  | inr other ↦ elim (Bool-cases (2 == id)) [
    | inl second ↦ inr ((==_iff 2 id).0 second, same_formula (rw (other, second) at found) refl at)
    | inr neither ↦ let bad = rw (other, neither) at found in cc
  ]
]

formulas-IsoFormulas : IsoFormulas js formulas
formulas-IsoFormulas id e formula = elim (formula_cases id e formula) [
  | inl (third, same) ↦ subst (IsoLiterals js) same (tt, (tt, tt))
  | inr (second, same) ↦ subst (IsoLiterals js) same (tt, (tt, tt))
]

dependencies-Recorded : Recorded js formulas dependencies
unfolding collect_column_ids dependents
dependencies-Recorded id e formula c reads = elim (formula_cases id e formula) [
  | inl (third, same) ↦
      let at : 2 ≡ c =
        one_of 2 c (subst (λ z. contains (collect_column_ids z) c ≡ true) (sym same) reads) in
      subst (λ z. member id (dependents dependencies z) ≡ true) at
        (subst (λ z. member z (3 ∷ []) ≡ true) third refl)
  | inr (second, same) ↦
      let at : 1 ≡ c =
        one_of 1 c (subst (λ z. contains (collect_column_ids z) c ≡ true) (sym same) reads) in
      subst (λ z. member id (dependents dependencies z) ≡ true) at
        (subst (λ z. member z (2 ∷ []) ≡ true) second refl)
]
  where
    one_of : (a c : ℕ) → contains (a ∷ []) c ≡ true → a ≡ c
    one_of a c h = ground arith

-- The first formula reads the changed column, and the second is right on the row as it is.
row_edited-OthersConsistent : OthersConsistent js formulas (1 ∷ []) row_edited
unfolding evaluate evaluate_call collect_column_ids serialize_cell_value deserialize_cell_value
row_edited-OthersConsistent id e formula apart = elim (formula_cases id e formula) [
  | inl (third, same) ↦
      subst (λ z. read_column js (stored js row_edited z) ≡ evaluate js e (stored js row_edited))
        third
        (subst (λ d. CellValue.number (some 10) ≡ evaluate js d (stored js row_edited)) same refl)
  | inr (second, same) ↦
      let reads : contains (collect_column_ids e) 1 ≡ true =
        subst (λ z. contains (collect_column_ids z) 1 ≡ true) same refl in
      let changed = apart 1 reads in cc
]

recompute-Consistent_example : Consistent js formulas row_after × Keyed js row_after
recompute-Consistent_example =
    recompute-Consistent js next_id next_id-fresh formulas dependencies (1 ∷ []) row_edited
      row_after (2 ∷ 3 ∷ []) length-zeros formulas-IsoFormulas dependencies-Recorded
      row_edited-OthersConsistent (refl, (refl, (refl, tt))) recomputed

abbrev types : ColumnTypes
types _ = some CellValueType.number

formulas-Typed : Typed js formulas types
unfolding infer_type infer_call
formulas-Typed id f found = elim (Bool-cases (3 == id)) [
  | inl third ↦
      subst
        (λ g.
          (e : Expression (Option ℕ) Unit) × (g.expression ≡ some e)
          × (infer_type e types ≡ ok g.value_type)
          × (types g.id ≡ some g.value_type))
        (same_column (rw third at found)) (double, refl, refl, refl)
  | inr other ↦ elim (Bool-cases (2 == id)) [
    | inl second ↦
        subst
          (λ g.
            (e : Expression (Option ℕ) Unit) × (g.expression ≡ some e)
            × (infer_type e types ≡ ok g.value_type)
            × (types g.id ≡ some g.value_type))
          (same_column (rw (other, second) at found)) (plus_two, refl, refl, refl)
    | inr neither ↦ let bad = rw (other, neither) at found in cc
  ]
]

dependencies-Acyclic : Acyclic (edges dependencies)
dependencies-Acyclic = ((λ c. c), up)
  where
    up : (s t : ℕ) → HasEdge s t (edges dependencies) → s < t
    up s t (inl (from, to)) = omega arith
    up s t (inr (inl (from, to))) = omega arith
    up s t (inr (inr h)) = absurd h

row_edited-fits : ValuesFit js (stored js row_edited) types
unfolding serialize_cell_value deserialize_cell_value
row_edited-fits c t typed = elim (Bool-cases (1 == c)) [
  | inl first ↦ rw first (inr same)
  | inr not_first ↦ elim (Bool-cases (2 == c)) [
    | inl second ↦ rw (not_first, second) (inr same)
    | inr not_second ↦ elim (Bool-cases (3 == c)) [
      | inl third ↦ rw (not_first, not_second, third) (inr same)
      | inr missing ↦ rw (not_first, not_second, missing) (inl refl)
    ]
  ]
]
  where
    same : CellValueType.number ≡ t
    same = cc

recompute-returns_example :
    (cells' : List (Cell js)) × (ids : List ℕ) × (recompute js next_id formulas dependencies
        (1 ∷ [])
        row_edited
      ≡ ok (cells', ids))
recompute-returns_example =
    recompute-returns js next_id formulas types dependencies (1 ∷ []) row_edited formulas-Typed
      dependencies-Acyclic row_edited-fits

-- The first formula depends on the second as well.
abbrev looped : List Dependency
looped = record { column_id = 2; depends_on_column_id = 3 } ∷ dependencies

refused : recompute js next_id formulas looped (1 ∷ []) row_edited ≡ err RecomputeError.cyclic
unfolding recompute release evaluate_call serialize_cell_value deserialize_cell_value
refused = refl

-- The first formula is of a column of texts.
abbrev mistyped : List (FormulaColumn js)
mistyped =
    record { id = 3; value_type = CellValueType.number; expression = some double }
    ∷ record { id = 2; value_type = CellValueType.text; expression = some plus_two }
    ∷ []

mistyped_refused :
    recompute js next_id mistyped dependencies (1 ∷ []) row_edited
    ≡ err RecomputeError.produced_other_type
unfolding recompute release evaluate_call serialize_cell_value deserialize_cell_value
mistyped_refused = refl

recompute-errs_example :
    ((RecomputeError.produced_other_type ≡ RecomputeError.cyclic) × ¬ Acyclic (edges dependencies))
    ⊎ BadFormula js mistyped next_id row_edited RecomputeError.produced_other_type
recompute-errs_example =
    recompute-errs js next_id mistyped dependencies (1 ∷ []) row_edited
      RecomputeError.produced_other_type mistyped_refused
