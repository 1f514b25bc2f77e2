-- ===== src/Recompute/Consistent.antt =====
-- What recomputeDependentSqliteFormulasForRow makes of a row (packages/db/src/sqlite/formulas.ts).
use byok_grid.Common.{
  ℕ, ◌≤◌, ◌≡◌, ◌⊎◌, inl, inr, refl, ap, sym, subst, ◌∙◌, Bool, true, false, ◌&&◌, ◌||◌, some, List,
  [], ◌∷◌, ◌==◌, ==_iff, length, Result, ok, >>=-eq-ok, >>-eq-ok, require, require-eq-ok,
  if◌then◌else◌, Bool-cases, Option-cases, arith,
}
use byok_grid.Formula.Values.{Runtime}
use byok_grid.Formula.Syntax.{Expression, collect_column_ids}
use byok_grid.Formula.Evaluate.{read_column, evaluate}
use byok_grid.Formula.Frame.{contains, evaluate-frame}
use byok_grid.Toposort.Counts.{count, Within, Within-full}
use byok_grid.Toposort.Edges.{Edges, HasEdge}
use byok_grid.Toposort.Order.{Follows}
use byok_grid.Workflow.Validate.{member}
use byok_grid.Recompute.Graph.{Dependency, RecomputeError, cyclic, dependents, evaluation_order}
use byok_grid.Recompute.Row.{
  Cell, FormulaColumn, Row, evaluate_columns, ordered_all, recompute, recompute_reached, stored,
  written, cell_of,
}
use byok_grid.Recompute.Storage.{ReadsIso, deserialize-IsIso, IsIso}
use byok_grid.Recompute.Cells.{Keyed, has_id}
use byok_grid.Recompute.Reached.{ReachedSet, member-count, reach_loop-ReachedSet}
use byok_grid.Recompute.Ordered.{evaluation_order-Follows, inner_edges}
use byok_grid.Recompute.Evaluated.{Evaluated, IsFormula, IsoFormulas, evaluate_columns-Evaluated}

more_edges :
    (b : Bool) (edge : ℕ × ℕ) (rest : Edges) (s t : ℕ)
    → HasEdge s t rest
    → HasEdge s t (if b then edge ∷ rest else rest)
more_edges true edge rest s t h = inr h
more_edges false edge rest s t h = h

inner_edges-dependents :
    (deps : List Dependency) (reachable : List ℕ) (c id : ℕ)
    → member id (dependents deps c) ≡ true
    → member c reachable ≡ true
    → member id reachable ≡ true
    → HasEdge c id (inner_edges deps reachable)
unfolding dependents
inner_edges-dependents [] reachable c id depends source target = cc
inner_edges-dependents (d ∷ ds) reachable c id depends source target =
    elim (Bool-cases (d.depends_on_column_id == c && d.column_id == id)) [
      | inl e ↦
          let from : d.depends_on_column_id ≡ c = ground arith in
          let to : d.column_id ≡ id = ground arith in
          let inside : (member d.column_id reachable && member d.depends_on_column_id reachable)
              ≡ true =
            both (subst (λ z. member z reachable ≡ true) (sym to) target)
              (subst (λ z. member z reachable ≡ true) (sym from) source) in
          rw inside (inl (from, to))
      | inr e ↦
          more_edges (member d.column_id reachable && member d.depends_on_column_id reachable)
            (d.depends_on_column_id, d.column_id) (inner_edges ds reachable) c id
            (inner_edges-dependents ds reachable c id (ground arith) source target)
    ]
  where
    both : {a b : Bool} → a ≡ true → b ≡ true → (a && b) ≡ true
    both p q = rw p (rw q refl)

module _ (js : Runtime) where
  same_cells :
      {a b : List (Cell js)} {i j : List ℕ}
      → ◌≡◌ {A = Result RecomputeError (List (Cell js) × List ℕ)} (ok (a, i)) (ok (b, j))
      → a ≡ b
  same_cells h = cc

module _ (js : Runtime) where
  stored-IsIso :
      ReadsIso js → (cells : List (Cell js)) (c : ℕ) → IsIso js (read_column js (stored js cells c))
  stored-IsIso reads cells c = elim (Option-cases (cell_of js cells c)) [
    | inl missing ↦ rw missing tt
    | inr (cell, found) ↦ rw found (deserialize-IsIso js reads cell.content)
  ]

same_ids : {i j : List ℕ} → ◌≡◌ {A = Result RecomputeError (List ℕ)} (ok i) (ok j) → i ≡ j
same_ids h = cc

module _ (js : Runtime) (formulas : List (FormulaColumn js)) where
  -- Each formula's cell holds the value of its expression on the row.
  abbrev pub Consistent : List (Cell js) → Type 0
  Consistent cells =
      (id : ℕ) (e : Expression js.Number js.Json)
      → IsFormula js formulas id e
      → read_column js (stored js cells id) ≡ evaluate js e (stored js cells)

  -- Every column that a formula reads is recorded as a dependency.
  abbrev pub Recorded : List Dependency → Type 0
  Recorded deps =
      (id : ℕ) (e : Expression js.Number js.Json)
      → IsFormula js formulas id e
      → (c : ℕ) → contains (collect_column_ids e) c ≡ true
      → member id (dependents deps c) ≡ true

  -- The formulas that read none of the changed columns have the values of their expressions.
  abbrev pub OthersConsistent : List ℕ → List (Cell js) → Type 0
  OthersConsistent changed cells =
      (id : ℕ) (e : Expression js.Number js.Json)
      → IsFormula js formulas id e
      → ((c : ℕ) → contains (collect_column_ids e) c ≡ true → member c changed ≡ false)
      → read_column js (stored js cells id) ≡ evaluate js e (stored js cells)

  module _ (new_id : List (Cell js) → ℕ)
      (fresh : (cells : List (Cell js)) → has_id js (new_id cells) cells ≡ false)
      (reads_iso : ReadsIso js) (iso : IsoFormulas js formulas) (deps : List Dependency)
      (recorded : Recorded deps) (changed : List ℕ) (cells : List (Cell js))
      (right : OthersConsistent changed cells) (keyed : Keyed js cells) where
    -- A formula that is not reached, and what it reads, are as before.
    unreached_right :
        (reachable : List ℕ) (cells' : List (Cell js))
        → ReachedSet deps changed reachable
        → ((c : ℕ)
            → member c reachable ≡ false
            → read_column js (stored js cells' c) ≡ read_column js (stored js cells c))
        → (id : ℕ) (e : Expression js.Number js.Json) → IsFormula js formulas id e
        → member id reachable ≡ false
        → read_column js (stored js cells' id) ≡ evaluate js e (stored js cells')
    unreached_right reachable cells' set kept id e formula out =
        kept id out
        ∙ (right id e formula (λ c m. (apart c (recorded id e formula c m)).0)
            ∙ evaluate-frame js e (stored js cells) (stored js cells')
                (λ c m. sym (kept c (apart c (recorded id e formula c m)).1)))
      where
        apart :
            (c : ℕ)
            → member id (dependents deps c) ≡ true
            → (member c changed ≡ false) × (member c reachable ≡ false)
        apart c depends = elim (Bool-cases (member c changed || member c reachable)) [
          | inl source ↦ let reached = set.closed c source id depends in cc
          | inr free ↦ (ground arith, ground arith)
        ]

    ordered_all-eq-ok :
        (reachable order ordered : List ℕ)
        → ordered_all js reachable (some order) ≡ ok ordered
        → (length order ≡ length reachable) × (order ≡ ordered)
    ordered_all-eq-ok reachable order ordered h =
        let (passed, same) =
          >>-eq-ok (require (length order == length reachable) cyclic) (ok order) h in
        (
          (==_iff (length order) (length reachable)).0
              (require-eq-ok (length order == length reachable) cyclic passed),
          same_ids same,
        )

    loop_right :
        (reachable ordered : List ℕ) (row' : Row js)
        → ReachedSet deps changed reachable
        → Within ordered reachable
        → length ordered ≡ length reachable
        → Evaluated js new_id fresh formulas iso
            (inner_edges deps reachable)
            ordered
            (record { values = stored js cells; cells = cells; changed = [] })
            row'
        → Consistent row'.cells
    loop_right reachable ordered row' set within full loop id e formula =
        elim (Bool-cases (member id reachable)) [
          | inl reached ↦
              sym (loop.sync.same id)
              ∙ (loop.right id e
                    (omega (arith, Within-full ordered reachable within full id, held id reached))
                    formula (λ c m. reads id c reached (recorded id e formula c m))
                  ∙ evaluate-frame js e row'.values (stored js row'.cells)
                      (λ c m. loop.sync.same c))
          | inr out ↦
              unreached_right reachable row'.cells set
                (λ c apart. sym (loop.sync.same c) ∙ loop.untouched c (free c apart)) id e formula
                out
        ]
      where
        held : (c : ℕ) → member c reachable ≡ true → 1 ≤ count c reachable
        held c h = ground (arith, member-count c reachable)

        free : (c : ℕ) → member c reachable ≡ false → count c ordered ≡ 0
        free c h =
            let none_there : count c reachable ≡ 0 = ground (arith, member-count c reachable) in
            omega (arith, within c)

        reads :
            (id c : ℕ)
            → member id reachable ≡ true
            → member id (dependents deps c) ≡ true
            → HasEdge c id (inner_edges deps reachable) ⊎ (count c ordered ≡ 0)
        reads id c reached depends = elim (Bool-cases (member c reachable)) [
          | inl inside ↦ inl (inner_edges-dependents deps reachable c id depends inside reached)
          | inr apart ↦ inr (free c apart)
        ]

    recompute_reached-Consistent :
        (reachable : List ℕ) (cells' : List (Cell js)) (ids : List ℕ)
        → ReachedSet deps changed reachable
        → recompute_reached js new_id formulas deps cells (some reachable) ≡ ok (cells', ids)
        → Consistent cells' × Keyed js cells'
    unfolding recompute_reached
    recompute_reached-Consistent [] cells' ids set h =
        let same : cells ≡ cells' = same_cells js h in
        (
          (λ id e formula.
              unreached_right [] cells' set
                (λ c out. ap (λ z. read_column js (stored js z c)) (sym same)) id e formula refl),
          subst (Keyed js) same keyed,
        )
    recompute_reached-Consistent (x ∷ xs) cells' ids set h =
        let reachable : List ℕ = x ∷ xs in
        let (order, run, follows, within, whole) =
          evaluation_order-Follows deps (x ∷ xs) set.unique in
        let (ordered, required, rest) =
          >>=-eq-ok (ordered_all js (x ∷ xs) (evaluation_order deps (x ∷ xs))) _ h in
        let (row', ran, out) =
          >>=-eq-ok
            (evaluate_columns js new_id formulas ordered
              (record { values = stored js cells; cells = cells; changed = [] }))
            (written js) rest in
        let (full, same_order) = ordered_all-eq-ok (x ∷ xs) order ordered (rw run at required) in
        let loop =
          evaluate_columns-Evaluated js new_id fresh formulas iso (inner_edges deps (x ∷ xs)) []
            ordered (record { values = stored js cells; cells = cells; changed = [] }) row'
            (subst (Follows (inner_edges deps (x ∷ xs)) []) same_order follows)
            (record { same = λ c. refl; keyed = keyed; iso = stored-IsIso js reads_iso cells })
            ran in
        subst (λ z. Consistent z × Keyed js z) (same_cells js out)
          ((
            loop_right (x ∷ xs) ordered row' set (subst (λ z. Within z (x ∷ xs)) same_order within)
                (subst (λ z. length z ≡ length (x ∷ xs)) same_order full) loop,
            loop.sync.keyed,
          ))

-- When the recomputation for changed columns of a row returns, every formula of the row has the
-- value of its expression, if those that read none of the changed columns had theirs before. The
-- columns that each formula reads are recorded as dependencies, the timestamps among its literals
-- are written as toISOString writes them (which is how a cell's timestamp is read back), and the ids
-- of the cells, those of new ones included, are all different, and stay so. `new Date` reads what
-- toISOString prints.
pub recompute-Consistent :
    (js : Runtime) (new_id : List (Cell js) → ℕ)
    → ((cells : List (Cell js)) → has_id js (new_id cells) cells ≡ false)
    → (formulas : List (FormulaColumn js)) (deps : List Dependency) (changed : List ℕ)
      (cells cells' : List (Cell js)) (ids : List ℕ)
    → ReadsIso js
    → IsoFormulas js formulas
    → Recorded js formulas deps
    → OthersConsistent js formulas changed cells
    → Keyed js cells
    → recompute js new_id formulas deps changed cells ≡ ok (cells', ids)
    → Consistent js formulas cells' × Keyed js cells'
unfolding recompute
recompute-Consistent js new_id fresh formulas deps [] cells cells' ids reads iso recorded right
      keyed h =
    subst (λ z. Consistent js formulas z × Keyed js z) (same_cells js h)
      ((λ id e formula. right id e formula (λ c m. refl)), keyed)
recompute-Consistent js new_id fresh [] deps (c ∷ changed) cells cells' ids reads iso recorded right
      keyed h =
    ((λ id e (f, found, at). cc), subst (Keyed js) (same_cells js h) keyed)
recompute-Consistent js new_id fresh (formula ∷ formulas) deps (c ∷ changed) cells cells' ids reads
      iso recorded right keyed h =
    let (reachable, run, set) = reach_loop-ReachedSet deps (c ∷ changed) in
    recompute_reached-Consistent js (formula ∷ formulas) new_id fresh reads iso deps recorded
      (c ∷ changed) cells right keyed reachable cells' ids set (rw run at h)
