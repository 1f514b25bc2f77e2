-- ===== src/Recompute/Extended.antt =====
-- The formulas and dependencies of a table with one more formula column
-- (packages/db/src/sqlite/formulas.ts, createSqliteFormulaColumn).
use byok_grid.Common.{
  ℕ, ◌≡◌, ◌⊎◌, inl, inr, refl, ap, sym, subst, ◌∙◌, Text, true, false, not, ◌||◌, Option, some,
  List, [], ◌∷◌, ◌++◌, ◌==◌, ==_iff, ==_refl, length, Bool-cases, arith,
}
use byok_grid.Formula.Values.{Runtime, CellValueType}
use byok_grid.Formula.Syntax.{Expression, collect_column_ids}
use byok_grid.Formula.Evaluate.{read_column, evaluate}
use byok_grid.Formula.Frame.{contains}
use byok_grid.Workflow.Validate.{member}
use byok_grid.Recompute.Graph.{Dependency, dependents}
use byok_grid.Recompute.Row.{Cell, FormulaColumn, stored}
use byok_grid.Recompute.Evaluated.{IsFormula, IsoFormulas}
use byok_grid.Recompute.Storage.{IsoLiterals}
use byok_grid.Recompute.Consistent.{Consistent, OthersConsistent, Recorded}
use byok_grid.Recompute.Create.{
  Column, ColumnKind, dependency_rows, formula_kind, formula_row, formulas_of, other_kind,
}

dependents-append :
    (ds es : List Dependency) (c : ℕ) → dependents (ds ++ es) c ≡ dependents ds c ++ dependents es c
unfolding dependents
dependents-append [] es c = refl
dependents-append (d ∷ ds) es c = ground (arith, dependents-append ds es c)

member-append : (t : ℕ) (xs ys : List ℕ) → member t (xs ++ ys) ≡ (member t xs || member t ys)
member-append t [] ys = refl
member-append t (x ∷ xs) ys = ground (arith, member-append t xs ys)

-- Each column that the new formula reads is recorded.
dependency_rows-member :
    (id : ℕ) (ids : List ℕ) (c : ℕ)
    → contains ids c ≡ true
    → member id (dependents (dependency_rows id ids) c) ≡ true
unfolding dependents dependency_rows
dependency_rows-member id [] c h = cc
dependency_rows-member id (x ∷ xs) c h = ground (arith, dependency_rows-member id xs c)

module _ (js : Runtime) where
  abbrev pub new_column : ℕ → Text → CellValueType → Expression js.Number js.Json → Column js
  new_column id name value_type e = record {
    id = id;
    name = name;
    value_type = value_type;
    archived = false;
    kind = formula_kind (some e);
  }

  abbrev pub new_formula : ℕ → CellValueType → Expression js.Number js.Json → FormulaColumn js
  new_formula id value_type e = record { id = id; value_type = value_type; expression = some e }

  formula_row-append :
      (column : Column js) (rest more : List (FormulaColumn js))
      → formula_row js column (rest ++ more) ≡ formula_row js column rest ++ more
  formula_row-append column rest more = elim (kind_cases column.kind) [
    | inl other ↦ rw other refl
    | inr (e, formula) ↦
        rw formula
          (elim (Bool-cases column.archived) [ inl gone ↦ rw gone refl | inr kept ↦ rw kept refl ])
  ]
    where
      kind_cases :
          (k : ColumnKind js)
          → (k ≡ other_kind) ⊎ ((e : Option (Expression js.Number js.Json)) × (k ≡ formula_kind e))
      kind_cases other_kind = inl refl
      kind_cases (formula_kind e) = inr (e, refl)

  pub formulas_of-append :
      (columns : List (Column js)) (id : ℕ) (name : Text) (value_type : CellValueType)
      (e : Expression js.Number js.Json)
      → formulas_of js (columns ++ new_column id name value_type e ∷ [])
        ≡ formulas_of js columns ++ new_formula id value_type e ∷ []
  unfolding formulas_of
  formulas_of-append [] id name value_type e = refl
  formulas_of-append (column ∷ columns) id name value_type e =
      rw (formulas_of-append columns id name value_type e)
        (formula_row-append column (formulas_of js columns) (new_formula id value_type e ∷ []))

  -- A formula of the list with a new one at its end is one of the list or the new one.
  IsFormula-append :
      (formulas : List (FormulaColumn js)) (new : ℕ) (value_type : CellValueType)
      (d : Expression js.Number js.Json) (id : ℕ) (e : Expression js.Number js.Json)
      → IsFormula js (formulas ++ new_formula new value_type d ∷ []) id e
      → IsFormula js formulas id e ⊎ ((new ≡ id) × (d ≡ e))
  IsFormula-append [] new value_type d id e (f, found, at) = elim (Bool-cases (new == id)) [
    | inl same ↦ inr ((==_iff new id).0 same, same_expression f (rw same at found) at)
    | inr other ↦ let bad = rw other at found in cc
  ]
    where
      same_expression :
          (f : FormulaColumn js)
          → ◌≡◌ {A = Option (FormulaColumn js)} (some (new_formula new value_type d)) (some f)
          → f.expression ≡ some e
          → d ≡ e
      same_expression f same at =
          let column : new_formula new value_type d ≡ f = cc in
          let joined : ◌≡◌ {A = Option (Expression js.Number js.Json)} (some d) (some e) =
            ap (λ z. z.expression) column ∙ at in
          cc
  IsFormula-append (g ∷ gs) new value_type d id e (f, found, at) = elim (Bool-cases (g.id == id)) [
    | inl same ↦ inl (f, rw same (rw same at found), at)
    | inr other ↦
        earlier (IsFormula-append gs new value_type d id e (f, rw other at found, at)) other
  ]
    where
      earlier :
          IsFormula js gs id e ⊎ ((new ≡ id) × (d ≡ e))
          → (g.id == id) ≡ false
          → IsFormula js (g ∷ gs) id e ⊎ ((new ≡ id) × (d ≡ e))
      earlier (inl (f, found, at)) other = inl (f, rw other found, at)
      earlier (inr new) other = inr new

  pub formulas-IsoFormulas :
      (formulas : List (FormulaColumn js)) (new : ℕ) (value_type : CellValueType)
      (d : Expression js.Number js.Json)
      → IsoLiterals js d
      → IsoFormulas js formulas
      → IsoFormulas js (formulas ++ new_formula new value_type d ∷ [])
  formulas-IsoFormulas formulas new value_type d literals iso id e formula =
      elim (IsFormula-append formulas new value_type d id e formula) [
        | inl old ↦ iso id e old
        | inr (same, expression) ↦ subst (IsoLiterals js) expression literals
      ]

  pub dependencies-Recorded :
      (formulas : List (FormulaColumn js)) (deps : List Dependency) (new : ℕ)
      (value_type : CellValueType) (d : Expression js.Number js.Json)
      → Recorded js formulas deps
      → Recorded js
          (formulas ++ new_formula new value_type d ∷ [])
          (deps ++ dependency_rows new (collect_column_ids d))
  dependencies-Recorded formulas deps new value_type d recorded id e formula c reads =
      rw (dependents-append deps (dependency_rows new (collect_column_ids d)) c) (
        rw
          (member-append id (dependents deps c)
            (dependents (dependency_rows new (collect_column_ids d)) c))
          (either (IsFormula-append formulas new value_type d id e formula)))
    where
      either :
          IsFormula js formulas id e ⊎ ((new ≡ id) × (d ≡ e))
          → (member id (dependents deps c)
              || member id (dependents (dependency_rows new (collect_column_ids d)) c))
            ≡ true
      either (inl old) = let known = recorded id e old c reads in ground arith
      either (inr (same, expression)) =
          let listed : contains (collect_column_ids d) c ≡ true =
            subst (λ z. contains (collect_column_ids z) c ≡ true) (sym expression) reads in
          let known : member id (dependents (dependency_rows new (collect_column_ids d)) c) ≡ true =
            subst (λ z. member z (dependents (dependency_rows new (collect_column_ids d)) c) ≡ true)
              same (dependency_rows-member new (collect_column_ids d) c listed) in
          ground arith

  -- The new formula reads a column, so it is not one of those that must be right already.
  reads_none :
      (ids : List ℕ)
      → not (length ids == 0) ≡ true
      → ((c : ℕ) → contains ids c ≡ true → member c ids ≡ false)
      → ⊥
  reads_none [] filled apart = cc
  reads_none (x ∷ xs) filled apart =
      let here : contains (x ∷ xs) x ≡ true = rw (==_refl x) refl in let gone = apart x here in cc

  pub others-OthersConsistent :
      (formulas : List (FormulaColumn js)) (new : ℕ) (value_type : CellValueType)
      (d : Expression js.Number js.Json) (cells : List (Cell js))
      → not (length (collect_column_ids d) == 0) ≡ true
      → Consistent js formulas cells
      → OthersConsistent js
          (formulas ++ new_formula new value_type d ∷ [])
          (collect_column_ids d)
          cells
  others-OthersConsistent formulas new value_type d cells filled right id e formula apart =
      either (IsFormula-append formulas new value_type d id e formula)
    where
      either :
          IsFormula js formulas id e ⊎ ((new ≡ id) × (d ≡ e))
          → read_column js (stored js cells id) ≡ evaluate js e (stored js cells)
      either (inl old) = right id e old
      either (inr (same, expression)) = absurd (
          reads_none (collect_column_ids d) filled (
            subst
              (λ z.
                (c : ℕ)
                → contains (collect_column_ids z) c ≡ true
                → member c (collect_column_ids d) ≡ false)
              (sym expression) apart))
