-- ===== src/Examples/Runs/Starts.antt =====
-- The creation of a run, the execution of its second step, and the walk over skipped steps.
use byok_grid.Common.{◌||◌, true, ◌++◌, ℕ, ◌≡◌, ◌≢◌, refl, some, List, [], ◌∷◌, codes, ok, err, All}
use byok_grid.Workflow.Graph.{NodeKind}
use byok_grid.Workflow.Plan.{CompiledPlan}
use byok_grid.Runs.Ledger.{require_plan_step, StepStatus, StepRun, Ledger, out_of_fuel}
use byok_grid.Runs.Skip.{skip_step, skip_loop, collect_skipped}
use byok_grid.Runs.Skipped.{collect_skipped-total}
use byok_grid.Runs.Settle.{Scope}
use byok_grid.Runs.Closure.{Spreads, collect_skipped-Spreads}
use byok_grid.Workflow.Validate.{member}
use byok_grid.Workflow.Compile.{step_ids}
use byok_grid.Runs.Create.{
  Version, Published, RunRequest, published_version, parse_run_input, create_run, requested_event,
}
use byok_grid.Runs.Created.{NewRow, row_ids, create_run-NewRow}
use byok_grid.Runs.Execution.{Execution}
use byok_grid.Examples.Runs.{js, last_step, plan, step_run, run, before_claim, at, after_first}

collect_skipped-total_example : collect_skipped plan [] (1 ∷ []) ≢ err out_of_fuel
collect_skipped-total_example = collect_skipped-total plan [] (1 ∷ [])

abbrev authoring : Published Unit
authoring = record {
  workflows = record { id = 8; workspace_id = 7; published_version = some 1; active = true } ∷ [];
  versions =
      record {
        workflow_id = 8;
        workspace_id = 7;
        version = 1;
        graph_digest = codes "digest";
        compiled_plan = some plan;
      }
      ∷ [];
  members = (7, 4) ∷ [];
}

abbrev no_runs : Ledger Unit ℕ
no_runs = record { runs = []; steps = []; plan_of = λ _ _ _. some plan }

abbrev run_request : RunRequest
run_request = record {
  user_id = 4;
  workspace_id = 7;
  workflow_id = 8;
  run_id = 5;
  event_id = 6;
  now = 0;
}

create_result :
    create_run js authoring no_runs run_request 0
    ≡ ok (run, before_claim, requested_event run_request)
unfolding create_run parse_run_input published_version
create_result = refl

create_run-NewRow_example :
    (version : Version Unit) × (plan : CompiledPlan Unit) × (rows : List (StepRun ℕ))
    × (published_version authoring run_request ≡ some version)
    × (version.compiled_plan ≡ some plan)
    × (before_claim.steps ≡ no_runs.steps ++ rows)
    × (row_ids rows ≡ step_ids plan.steps)
    × All (NewRow run_request plan.entry_step_ids) rows
create_run-NewRow_example = create_run-NewRow js authoring no_runs run_request 0 create_result

abbrev pub second_running : Ledger Unit ℕ
second_running = record after_first {
  steps =
      record (step_run 1 NodeKind.table_rows StepStatus.succeeded) {
        attempt = 1;
        output = some 9;
        started_at = some 1000;
        finished_at = some 2000;
        updated_at = 2000;
      }
      ∷ record (step_run 2 NodeKind.send_webhook StepStatus.running) {
        attempt = 1;
        claim_id = some (codes "worker");
        claimed_at = some 3000;
      }
      ∷ [];
}

abbrev pub second_at : Scope
second_at = record at { step_id = 2 }

abbrev execution : Execution Unit ℕ
execution = record {
  inbound =
      record {
        output = some 9;
        source_handle = codes "rows";
        source_step_id = 1;
        target_handle = codes "rows";
      }
      ∷ [];
  requested_by_user_id = 4;
  run_input = 0;
  step = last_step;
}

skip_result : collect_skipped plan [] (1 ∷ []) ≡ ok (2 ∷ 1 ∷ [])
unfolding collect_skipped skip_loop skip_step require_plan_step
skip_result = refl

collect_skipped-Spreads_example :
    Spreads plan [] [] (2 ∷ 1 ∷ [])
    × ((id : ℕ) → member id (1 ∷ []) ≡ true → (member id (2 ∷ 1 ∷ []) || member id []) ≡ true)
collect_skipped-Spreads_example = collect_skipped-Spreads plan [] (1 ∷ []) skip_result
