-- ===== src/Recompute/Graph.antt =====
-- Which formulas a change reaches, and in which order they are evaluated
-- (packages/db/src/sqlite/formulas.ts, recomputeDependentSqliteFormulasForRow).
use byok_grid.Common.{
  ℕ, zero, suc, ◌==◌, ◌&&◌, Option, none, some, List, [], ◌∷◌, ◌++◌, keep, length, if◌then◌else◌,
}
use byok_grid.Toposort.Loop.{ℤ, pos, is_zero, put, drain}
use byok_grid.Workflow.Validate.{member, increment}
use byok_grid.Workflow.Compile.{sort_ids}

-- A row of `columnDependencies`.
pub record Dependency : Type 0 where
  pub column_id : ℕ
  pub depends_on_column_id : ℕ

pub data RecomputeError : Type 0 where
  cyclic invalid_configuration produced_other_type out_of_fuel : RecomputeError

-- `dependents.get(id) ?? []`
unfoldable pub dependents : List Dependency → ℕ → List ℕ
dependents [] id = []
dependents (d ∷ ds) id =
    let rest = dependents ds id in if d.depends_on_column_id == id then d.column_id ∷ rest else rest

-- The inner loop: the set and the queue with the dependents that are new.
unfoldable pub reach_new : List ℕ → List ℕ → List ℕ → List ℕ × List ℕ
reach_new [] reachable queue = (reachable, queue)
reach_new (d ∷ ds) reachable queue =
    if member d reachable
    then reach_new ds reachable queue
    else reach_new ds (reachable ++ d ∷ []) (queue ++ d ∷ [])

-- The queue from its cursor on.
unfoldable pub reach_loop : List Dependency → ℕ → List ℕ → List ℕ → Option (List ℕ)
unfolding dependents reach_new
reach_loop deps fuel [] reachable = some reachable
reach_loop deps zero (id ∷ queue) reachable = none
reach_loop deps (suc fuel) (id ∷ queue) reachable =
    let (reachable', queue') = reach_new (dependents deps id) reachable queue in
    reach_loop deps fuel queue' reachable'

-- The degree of each reachable column within the set.
unfoldable pub count_degrees : List ℕ → List Dependency → (ℕ → ℤ) → ℕ → ℤ
count_degrees reachable [] degrees = degrees
count_degrees reachable (d ∷ ds) degrees = count_degrees reachable ds (
    if member d.column_id reachable && member d.depends_on_column_id reachable
    then put degrees d.column_id (increment (degrees d.column_id))
    else degrees)

abbrev pub push_ready : List ℕ → ℕ → List ℕ
push_ready ready id = ready ++ id ∷ []

-- The dependents that the second loop counts down.
unfoldable pub reachable_dependents : List Dependency → List ℕ → ℕ → List ℕ
unfolding dependents
reachable_dependents deps reachable id = keep (λ d. member d reachable) (dependents deps id)

-- The reachable columns, each after those that it depends on.
unfoldable pub evaluation_order : List Dependency → List ℕ → Option (List ℕ)
unfolding count_degrees reachable_dependents drain sort_ids
evaluation_order deps reachable =
    let degrees = count_degrees reachable deps (λ id. pos 0) in
    let ready = sort_ids (keep (λ id. is_zero (degrees id)) reachable) in
    drain push_ready sort_ids (reachable_dependents deps reachable) (length reachable) ready degrees
