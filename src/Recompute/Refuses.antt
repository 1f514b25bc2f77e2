-- ===== src/Recompute/Refuses.antt =====
-- Why recomputeDependentSqliteFormulasForRow throws (packages/db/src/sqlite/formulas.ts).
use byok_grid.Common.{
  ℕ, ◌≡◌, ◌⊎◌, inl, inr, refl, sym, subst, ap, none, some, List, [], ◌∷◌, ◌++◌, ◌==◌, ==_iff,
  length, Result, ok, err, ◌>>=◌, >>=-eq-ok, Bool-cases, Option-cases,
}
use byok_grid.Formula.Values.{Runtime, Fits}
use byok_grid.Formula.Syntax.{Expression}
use byok_grid.Formula.Evaluate.{evaluate}
use byok_grid.Toposort.Order.{Acyclic}
use byok_grid.Recompute.Graph.{
  Dependency, RecomputeError, cyclic, invalid_configuration, produced_other_type,
}
use byok_grid.Recompute.Row.{
  FormulaColumn, Cell, Row, stored, formula_of, is_expected, evaluate_column, evaluate_columns,
  written, recompute_reached, recompute,
}
use byok_grid.Recompute.Reached.{reach_loop-ReachedSet, ReachedSet}
use byok_grid.Recompute.Ordered.{evaluation_order-Follows}
use byok_grid.Recompute.Returns.{Fits-is_expected, edges, inner_edges-edges}

module _ {E A B : Type 0} where
  thrown_again :
      {e e' : E} → ◌≡◌ {A = Result E B} (err e) (err e') → ◌≡◌ {A = Result E A} (err e) (err e')
  thrown_again h = cc

  -- A chain that throws does so at its first step or after it.
  >>=-eq-err :
      (first : Result E A) (rest : A → Result E B) {e : E}
      → (first >>= rest) ≡ err e
      → (first ≡ err e) ⊎ ((a : A) × (first ≡ ok a) × (rest a ≡ err e))
  >>=-eq-err (ok a) rest h = inr (a, refl, h)
  >>=-eq-err (err e) rest h = inl (thrown_again h)

module _ (js : Runtime) (formulas : List (FormulaColumn js)) where
  -- The row that the loop starts with.
  abbrev pub start_row : List (Cell js) → Row js
  start_row cells = record { values = stored js cells; cells = cells; changed = [] }

  module _ (new_id : List (Cell js) → ℕ) (cells : List (Cell js)) where
    -- The formula's configuration does not parse, or its expression gives, on the row's values once
    -- some columns have been evaluated, a value that is neither empty nor of the column's type.
    abbrev pub BadFormula : RecomputeError → Type 0
    BadFormula e =
        (id : ℕ) × (f : FormulaColumn js) × (formula_of js formulas id ≡ some f)
        × (((e ≡ invalid_configuration) × (f.expression ≡ none))
            ⊎ ((e ≡ produced_other_type)
                × ((d : Expression js.Number js.Json) × (f.expression ≡ some d)
                    × ((earlier : List ℕ) × (row : Row js) × (evaluate_columns js new_id formulas
                            earlier (start_row cells)
                          ≡ ok row)
                        × ¬ Fits (evaluate js d row.values) f.value_type))))

    evaluate_columns-append :
        (earlier : List ℕ) (id : ℕ) (row row1 row2 : Row js)
        → evaluate_columns js new_id formulas earlier row ≡ ok row1
        → evaluate_column js new_id (formula_of js formulas id) row1 ≡ ok row2
        → evaluate_columns js new_id formulas (earlier ++ id ∷ []) row ≡ ok row2
    unfolding evaluate_columns
    evaluate_columns-append [] id row row1 row2 h last =
        subst (λ r. evaluate_columns js new_id formulas (id ∷ []) r ≡ ok row2) (sym (same_row h))
          (ap (λ m. m >>= λ row. ok row) last)
      where
        same_row : {a b : Row js} → ◌≡◌ {A = Result RecomputeError (Row js)} (ok a) (ok b) → a ≡ b
        same_row h = cc
    evaluate_columns-append (x ∷ earlier) id row row1 row2 h last =
        let (between, first, rest) =
          >>=-eq-ok (evaluate_column js new_id (formula_of js formulas x) row) _ h in
        let later = evaluate_columns-append earlier id between row1 row2 rest last in rw first later

    evaluate_column-errs :
        (earlier : List ℕ) (id : ℕ) (row : Row js) (e : RecomputeError)
        → evaluate_columns js new_id formulas earlier (start_row cells) ≡ ok row
        → evaluate_column js new_id (formula_of js formulas id) row ≡ err e
        → BadFormula e
    unfolding evaluate_column
    evaluate_column-errs earlier id row e reached h =
        elim (Option-cases (formula_of js formulas id)) [
          | inl missing ↦ let bad = rw missing at h in cc
          | inr (f, found) ↦ elim (Option-cases f.expression) [
            | inl none_there ↦
                let bad = rw (found, none_there) at h in
                (id, f, found, inl (thrown bad, none_there))
            | inr (d, expression) ↦
                elim (Bool-cases (is_expected js (evaluate js d row.values) f.value_type)) [
                  | inl fits ↦ let bad = rw (found, expression, fits) at h in cc
                  | inr apart ↦
                      let bad = rw (found, expression, apart) at h in
                      (
                        id,
                        f,
                        found,
                        inr (
                          thrown bad,
                          (
                            d,
                            expression,
                            (
                              earlier,
                              row,
                              reached,
                              λ fits.
                                  let passes =
                                    Fits-is_expected js (evaluate js d row.values) f.value_type
                                      fits in
                                  cc,
                            ),
                          ),
                        ),
                      )
                ]
          ]
        ]
      where
        thrown :
            {a b : RecomputeError}
            → ◌≡◌ {A = Result RecomputeError (Row js)} (err a) (err b)
            → b ≡ a
        thrown h = cc

    evaluate_columns-errs :
        (ids earlier : List ℕ) (row : Row js) (e : RecomputeError)
        → evaluate_columns js new_id formulas earlier (start_row cells) ≡ ok row
        → evaluate_columns js new_id formulas ids row ≡ err e
        → BadFormula e
    unfolding evaluate_columns
    evaluate_columns-errs [] earlier row e reached h = cc
    evaluate_columns-errs (id ∷ ids) earlier row e reached h =
        either (>>=-eq-err (evaluate_column js new_id (formula_of js formulas id) row) _ h)
          (λ row1 run.
            evaluate_columns-errs ids (earlier ++ id ∷ []) row1 e
              (evaluate_columns-append earlier id (start_row cells) row row1 reached run))
      where
        either :
            (evaluate_column js new_id (formula_of js formulas id) row ≡ err e)
              ⊎ ((row1 : Row js) × (evaluate_column js new_id (formula_of js formulas id) row
                    ≡ ok row1)
                  × (evaluate_columns js new_id formulas ids row1 ≡ err e))
            → ((row1 : Row js)
                → evaluate_column js new_id (formula_of js formulas id) row ≡ ok row1
                → evaluate_columns js new_id formulas ids row1 ≡ err e
                → BadFormula e)
            → BadFormula e
        either (inl here) later = evaluate_column-errs earlier id row e reached here
        either (inr (row1, run, there)) later = later row1 run there

    recompute_reached-errs :
        (deps : List Dependency) (changed reachable : List ℕ) (e : RecomputeError)
        → ReachedSet deps changed reachable
        → recompute_reached js new_id formulas deps cells (some reachable) ≡ err e
        → ((e ≡ cyclic) × ¬ Acyclic (edges deps)) ⊎ BadFormula e
    unfolding recompute_reached evaluate_columns
    recompute_reached-errs deps changed [] e set h = cc
    recompute_reached-errs deps changed (x ∷ xs) e set h =
        let (order, run, follows, within, whole) =
          evaluation_order-Follows deps (x ∷ xs) set.unique in
        elim (Bool-cases (length order == length (x ∷ xs))) [
          | inl full ↦ inr (loop order (rw (run, full) at h))
          | inr short ↦
              let bad = rw (run, short) at h in
              inl (
                thrown bad,
                λ (rank, up).
                    let equal : length order ≡ length (x ∷ xs) =
                      whole.1
                        (rank, λ s t edge. up s t (inner_edges-edges deps (x ∷ xs) s t edge)) in
                    let full = (==_iff (length order) (length (x ∷ xs))).1 equal in cc,
              )
        ]
      where
        thrown :
            {a b : RecomputeError}
            → ◌≡◌ {A = Result RecomputeError (List (Cell js) × List ℕ)} (err a) (err b)
            → b ≡ a
        thrown h = cc

        started : evaluate_columns js new_id formulas [] (start_row cells) ≡ ok (start_row cells)
        started = refl

        loop :
            (order : List ℕ)
            → (evaluate_columns js new_id formulas order
                  (record { values = stored js cells; cells = cells; changed = [] })
                >>= written js)
              ≡ err e
            → BadFormula e
        loop order h = finished order (
            >>=-eq-err
              (evaluate_columns js new_id formulas order
                (record { values = stored js cells; cells = cells; changed = [] }))
              (written js) h)
          where
            finished :
                (order : List ℕ)
                → (evaluate_columns js new_id formulas order
                      (record { values = stored js cells; cells = cells; changed = [] })
                    ≡ err e)
                  ⊎ ((row : Row js) × (evaluate_columns js new_id formulas order
                          (record { values = stored js cells; cells = cells; changed = [] })
                        ≡ ok row)
                      × (written js row ≡ err e))
                → BadFormula e
            finished order (inl bad) =
                evaluate_columns-errs order [] (start_row cells) e started bad
            finished order (inr (row, _, bad)) = cc

-- The recomputation throws for two reasons only: the dependencies have a cycle, or there is a bad
-- formula, whose configuration does not parse, or whose expression gives, on the values of the row
-- once some columns have been evaluated, one that is neither empty nor of the column's type. Each
-- error tells which of these it was.
pub recompute-errs :
    (js : Runtime) (new_id : List (Cell js) → ℕ) (formulas : List (FormulaColumn js))
    (deps : List Dependency) (changed : List ℕ) (cells : List (Cell js)) (e : RecomputeError)
    → recompute js new_id formulas deps changed cells ≡ err e
    → ((e ≡ cyclic) × ¬ Acyclic (edges deps)) ⊎ BadFormula js formulas new_id cells e
unfolding recompute
recompute-errs js new_id formulas deps [] cells e h = cc
recompute-errs js new_id [] deps (c ∷ changed) cells e h = cc
recompute-errs js new_id (formula ∷ formulas) deps (c ∷ changed) cells e h =
    let (reachable, run, set) = reach_loop-ReachedSet deps (c ∷ changed) in
    recompute_reached-errs js (formula ∷ formulas) new_id cells deps (c ∷ changed) reachable e set
      (rw run at h)
