-- ===== src/Runs/Executed.antt =====
-- Where the outputs come from that a worker is given.
use byok_grid.Common.{ℕ, ◌≡◌, ◌⊎◌, true, Option, List, [], ◌∷◌}
use byok_grid.Workflow.Plan.{Route}
use byok_grid.Runs.Ledger.{StepRun, Ledger}
use byok_grid.Runs.Settle.{Scope}
use byok_grid.Runs.Execution.{Inbound, Execution, succeeded_row}

-- The output is that of a row of the run that has succeeded for the step.
abbrev pub Produced : {J : Type 0} → Scope → List (StepRun J) → ℕ → Option J → Type 0
Produced at [] id output = ⊥
Produced at (s ∷ ss) id output =
    ((succeeded_row at s ≡ true) × (s.step_id ≡ id) × (s.output ≡ output))
    ⊎ Produced at ss id output

-- An item carries along a route an output that the route's source has produced.
abbrev pub Carries : {J : Type 0} → Scope → List (StepRun J) → Route → Inbound J → Type 0
Carries at steps r item =
    (item.source_step_id ≡ r.source_step_id)
    × (item.source_handle ≡ r.source_handle)
    × (item.target_handle ≡ r.target_handle)
    × Produced at steps r.source_step_id item.output

-- The items are one for each route whose source has produced an output, in the order of the routes.
pub data Serves {J : Type 0} (at : Scope) (steps : List (StepRun J))
    : List Route → List (Inbound J) → Type 0 where
  served : Serves at steps [] []
  carried :
      (r : Route) (item : Inbound J) (rs : List Route) (items : List (Inbound J))
      → Carries at steps r item
      → Serves at steps rs items
      → Serves at steps (r ∷ rs) (item ∷ items)
  missed :
      (r : Route) (rs : List Route) (items : List (Inbound J))
      → ((output : Option J) → ¬ Produced at steps r.source_step_id output)
      → Serves at steps rs items
      → Serves at steps (r ∷ rs) items
