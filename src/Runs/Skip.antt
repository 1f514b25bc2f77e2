-- ===== src/Runs/Skip.antt =====
-- `collectSkippedDescendants`: the steps that lose their input when a step completes.
use byok_grid.Common.{
  ℕ, zero, suc, ◌+◌, ◌||◌, List, [], ◌∷◌, ◌++◌, length, if◌then◌else◌, Result, ok, err,
}
use byok_grid.Workflow.Plan.{Route, CompiledStep, CompiledPlan}
use byok_grid.Workflow.Validate.{member}
use byok_grid.Runs.Ledger.{LedgerError, out_of_fuel, require_plan_step}

abbrev pub route_targets : List Route → List ℕ
route_targets [] = []
route_targets (r ∷ rs) = r.target_step_id ∷ route_targets rs

-- A step joins the set, and the targets of its routes the queue.
unfoldable pub skip_step :
    {C : Type 0}
    → (List ℕ → List ℕ → Result LedgerError (List ℕ))
    → List ℕ
    → ℕ
    → List ℕ
    → Result LedgerError (CompiledStep C)
    → Result LedgerError (List ℕ)
skip_step loop skipped id pending (err e) = err e
skip_step loop skipped id pending (ok step) =
    loop (id ∷ skipped) (pending ++ route_targets step.outbound_routes)

abbrev pub route_count : {C : Type 0} → List (CompiledStep C) → ℕ
route_count [] = 0
route_count (s ∷ ss) = length s.outbound_routes + route_count ss

module _ {C : Type 0} (plan : CompiledPlan C) (protected : List ℕ) where
  -- The loop over `pending`, a queue; `skipped` holds the set, the latest first.
  unfoldable pub skip_loop : ℕ → List ℕ → List ℕ → Result LedgerError (List ℕ)
  unfolding skip_step require_plan_step
  skip_loop fuel skipped [] = ok skipped
  skip_loop zero skipped (id ∷ pending) = err out_of_fuel
  skip_loop (suc fuel) skipped (id ∷ pending) =
      let dropped = skip_loop fuel skipped pending in
      let visited = skip_step (skip_loop fuel) skipped id pending (require_plan_step plan id) in
      if member id skipped || member id protected then dropped else visited

  -- A round for each initial id and each route of the plan.
  unfoldable pub collect_skipped : List ℕ → Result LedgerError (List ℕ)
  unfolding skip_loop
  collect_skipped initial = skip_loop (length initial + route_count plan.steps) [] initial
