-- ===== src/Examples/Runs.antt =====
-- A run of two steps (packages/db/src/sqlite/workflow-runs.ts), a trigger and its destination: the
-- tables before and after a claim and a completion.
mod Ends
mod Starts
use byok_grid.Common.{
  ◌||◌, Pairwise, true, length, ◌++◌, ◌⊎◌, trim, is_space, any, false, update_where, text_eq, ℕ,
  ◌≡◌, ◌≢◌, refl, none, some, List, [], ◌∷◌, codes, ok, err, All, inl, inr,
}
use byok_grid.Workflow.Graph.{NodeKind}
use byok_grid.Workflow.Plan.{Route, CompiledStep, CompiledPlan}
use byok_grid.Runs.Ledger.{
  safe_code, safe_message, is_code_character, flatten_lines, is_active, open_scope, assert_claim_id,
  load_plan, require_plan_step, StepStatus, RunStatus, StepRun, Run, Ledger, out_of_fuel,
}
use byok_grid.Runs.Claim.{
  candidates, is_eligible, order_steps, insert_step, start_runs, ClaimInput, ClaimedStep,
  claim_steps,
}
use byok_grid.Runs.Skip.{skip_step, skip_loop, collect_skipped}
use byok_grid.Runs.Skipped.{collect_skipped-total}
use byok_grid.Runs.Settle.{
  mine, text_of, parse_output, settle_success, settle_step, valid_handles, targets_where, activate,
  skip, close_run, has_open, Scope, Json, complete_step, fail_step, fail_runs,
}
use byok_grid.Runs.Lifecycle.{Moves}
use byok_grid.Runs.Closure.{Spreads, collect_skipped-Spreads}
use byok_grid.Workflow.Validate.{member}
use byok_grid.Runs.Fencing.{complete, retry, Finishes, Finishes-once}
use byok_grid.Runs.Ends.{Closed, complete_step-Closed, run_scope, fail_step-ends}
use byok_grid.Runs.Leases.{Leased, claim_steps-Leased}
use byok_grid.Workflow.Compile.{step_ids}
use byok_grid.Runs.Create.{
  Version, Published, RunRequest, published_version, parse_run_input, create_run, requested_event,
}
use byok_grid.Runs.Created.{NewRow, row_ids, create_run-NewRow}
use byok_grid.Runs.Execution.{
  Execution, claimed_run, load_inbound, inbound_items, output_of, claimed_execution,
}
use byok_grid.Runs.Trace.{
  ClaimState, claims_some, completes, Reach, here, next, Reach-Moves, Reach-ClaimState,
}

abbrev pub js : Json
js = record {
  Value = ℕ;
  null = 0;
  is_object = λ _. true;
  stringify = λ n. text_of n;
  copy = λ n. n;
}

abbrev pub route : Route
route = record {
  edge_id = 3;
  source_handle = codes "rows";
  source_step_id = 1;
  target_handle = codes "rows";
  target_step_id = 2;
}

abbrev pub first_step : CompiledStep Unit
first_step = record {
  configuration = tt;
  dependency_step_ids = [];
  inbound_routes = [];
  kind = NodeKind.table_rows;
  name = codes "rows";
  outbound_routes = route ∷ [];
  step_id = 1;
}

abbrev pub last_step : CompiledStep Unit
last_step = record {
  configuration = tt;
  dependency_step_ids = 1 ∷ [];
  inbound_routes = route ∷ [];
  kind = NodeKind.send_webhook;
  name = codes "hook";
  outbound_routes = [];
  step_id = 2;
}

abbrev pub plan : CompiledPlan Unit
plan = record {
  entry_step_ids = 1 ∷ [];
  steps = first_step ∷ last_step ∷ [];
  terminal_step_ids = 2 ∷ [];
}

abbrev pub step_run : ℕ → NodeKind → StepStatus → StepRun ℕ
step_run id kind status = record {
  run_id = 5;
  workspace_id = 7;
  step_id = id;
  step_kind = kind;
  status = status;
  attempt = 0;
  claim_id = none;
  claimed_at = none;
  next_attempt_at = none;
  output = none;
  error_code = none;
  error_message = none;
  started_at = none;
  finished_at = none;
  updated_at = 0;
}

abbrev pub run : Run ℕ
run = record {
  id = 5;
  workspace_id = 7;
  workflow_id = 8;
  workflow_version = 1;
  graph_digest = codes "digest";
  requested_by_user_id = some 4;
  input = 0;
  status = RunStatus.queued;
  error_code = none;
  error_message = none;
  started_at = none;
  finished_at = none;
  updated_at = 0;
}

abbrev pub before_claim : Ledger Unit ℕ
before_claim = record {
  runs = run ∷ [];
  steps =
      step_run 1 NodeKind.table_rows StepStatus.ready
      ∷ step_run 2 NodeKind.send_webhook StepStatus.blocked
      ∷ [];
  plan_of = λ _ _ _. some plan;
}

abbrev pub claim_input : ClaimInput
claim_input = record {
  claim_id = codes "worker";
  lease_seconds = none;
  limit = none;
  now = 1000;
  run_id = none;
  workspace_id = none;
}

abbrev pub after_claim : Ledger Unit ℕ
after_claim = record before_claim {
  runs = record run { status = RunStatus.running; started_at = some 1000; updated_at = 1000 } ∷ [];
  steps =
      record (step_run 1 NodeKind.table_rows StepStatus.running) {
        attempt = 1;
        claim_id = some (codes "worker");
        claimed_at = some 1000;
        started_at = some 1000;
        updated_at = 1000;
      }
      ∷ step_run 2 NodeKind.send_webhook StepStatus.blocked
      ∷ [];
}

abbrev pub reports : List ClaimedStep
reports =
    record { attempt = 1; kind = NodeKind.table_rows; run_id = 5; step_id = 1; workspace_id = 7 }
    ∷ []

pub claim_result : claim_steps before_claim claim_input ≡ ok (reports, after_claim)
unfolding claim_steps assert_claim_id candidates is_eligible order_steps insert_step start_runs
    update_where
claim_result = refl

abbrev pub at : Scope
at = record { claim_id = codes "worker"; run_id = 5; step_id = 1; workspace_id = 7 }

abbrev pub after_first : Ledger Unit ℕ
after_first = record after_claim {
  steps =
      record (step_run 1 NodeKind.table_rows StepStatus.succeeded) {
        attempt = 1;
        output = some 9;
        started_at = some 1000;
        finished_at = some 2000;
        updated_at = 2000;
      }
      ∷ record (step_run 2 NodeKind.send_webhook StepStatus.ready) { updated_at = 2000 }
      ∷ [];
}

pub complete_result :
    complete_step js after_claim at (codes "rows" ∷ []) (some 9) 2000
    ≡ ok (RunStatus.running, after_first)
unfolding complete_step assert_claim_id parse_output settle_success load_plan require_plan_step
    settle_step valid_handles targets_where collect_skipped skip_loop activate skip close_run
    has_open update_where text_eq
complete_result = refl
