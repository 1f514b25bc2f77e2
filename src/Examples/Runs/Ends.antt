-- ===== src/Examples/Runs/Ends.antt =====
-- Claims, completions and failures of the steps of a run.
use byok_grid.Common.{
  Pairwise, trim, is_space, any, false, update_where, text_eq, ℕ, ◌≡◌, refl, some, [], ◌∷◌, codes,
  ok, All, inl, inr,
}
use byok_grid.Workflow.Graph.{NodeKind}
use byok_grid.Runs.Ledger.{
  safe_code, safe_message, is_code_character, flatten_lines, is_active, open_scope, assert_claim_id,
  load_plan, require_plan_step, StepStatus, RunStatus, Ledger,
}
use byok_grid.Runs.Claim.{
  candidates, is_eligible, order_steps, insert_step, start_runs, ClaimInput, claim_steps,
}
use byok_grid.Runs.Skip.{collect_skipped, skip_loop}
use byok_grid.Runs.Settle.{
  fail_step, fail_runs, complete_step, parse_output, settle_success, settle_step, valid_handles,
  targets_where, activate, skip, close_run, has_open, finish_run,
}
use byok_grid.Examples.Runs.Starts.{second_running, second_at}
use byok_grid.Runs.Lifecycle.{Moves}
use byok_grid.Runs.Fencing.{complete, retry, Finishes, Finishes-once}
use byok_grid.Runs.Ends.{Closed, complete_step-Closed, run_scope, fail_step-ends}
use byok_grid.Runs.Leases.{Leased, claim_steps-Leased}
use byok_grid.Runs.Trace.{
  ClaimState, claims_some, completes, Reach, here, next, Reach-Moves, Reach-ClaimState,
}
use byok_grid.Examples.Runs.{
  js, step_run, run, before_claim, claim_input, after_claim, reports, at, after_first, claim_result,
  complete_result,
}

start_ClaimState : All ClaimState before_claim.steps
start_ClaimState =
    ((inl (refl, refl), inr (refl, refl)), ((inl (refl, refl), inr (refl, refl)), tt))

abbrev path : Reach js before_claim after_first
path =
    next (next here (claims_some claim_input reports claim_result))
      (completes at (codes "rows" ∷ []) (some 9) 2000 RunStatus.running complete_result)

Reach-Moves_example : Pairwise Moves before_claim.steps after_first.steps
Reach-Moves_example = Reach-Moves js path

Reach-ClaimState_example : All ClaimState after_first.steps
Reach-ClaimState_example = Reach-ClaimState js path start_ClaimState

Finishes-once_example :
    ¬ Finishes js after_first at (retry (codes "E") (codes "late") 3000 2500) after_claim
Finishes-once_example =
    Finishes-once js after_claim after_first after_claim at
      (complete (codes "rows" ∷ []) (some 9) 2000) (retry (codes "E") (codes "late") 3000 2500)
      (RunStatus.running, complete_result)

abbrev after_last : Ledger Unit ℕ
after_last = record second_running {
  runs =
      record run {
        status = RunStatus.succeeded;
        started_at = some 1000;
        finished_at = some 4000;
        updated_at = 4000;
      }
      ∷ [];
  steps =
      record (step_run 1 NodeKind.table_rows StepStatus.succeeded) {
        attempt = 1;
        output = some 9;
        started_at = some 1000;
        finished_at = some 2000;
        updated_at = 2000;
      }
      ∷ record (step_run 2 NodeKind.send_webhook StepStatus.succeeded) {
        attempt = 1;
        output = some 8;
        finished_at = some 4000;
        updated_at = 4000;
      }
      ∷ [];
}

last_result :
    complete_step js second_running second_at [] (some 8) 4000
    ≡ ok (RunStatus.succeeded, after_last)
unfolding complete_step assert_claim_id parse_output settle_success load_plan require_plan_step
    settle_step valid_handles targets_where collect_skipped skip_loop activate skip close_run
    has_open finish_run update_where text_eq
last_result = refl

complete_step-Closed_example : Closed second_running second_at 4000 RunStatus.succeeded after_last
complete_step-Closed_example =
    complete_step-Closed js second_running second_at [] (some 8) 4000 last_result

abbrev after_failure : Ledger Unit ℕ
after_failure = record after_claim {
  runs =
      record run {
        status = RunStatus.failed;
        error_code = some (codes "E");
        error_message = some (codes "late");
        started_at = some 1000;
        finished_at = some 3000;
        updated_at = 3000;
      }
      ∷ [];
  steps =
      record (step_run 1 NodeKind.table_rows StepStatus.failed) {
        attempt = 1;
        error_code = some (codes "E");
        error_message = some (codes "late");
        started_at = some 1000;
        finished_at = some 3000;
        updated_at = 3000;
      }
      ∷ record (step_run 2 NodeKind.send_webhook StepStatus.cancelled) {
        finished_at = some 3000;
        updated_at = 3000;
      }
      ∷ [];
}

fail_result : fail_step after_claim at (codes "E") (codes "late") 3000 ≡ ok after_failure
unfolding fail_step assert_claim_id safe_code safe_message is_code_character flatten_lines trim
    is_space text_eq fail_runs update_where
fail_result = refl

fail_step-ends_example :
    (any (open_scope 5 7) after_failure.steps ≡ false)
    × (any (run_scope is_active at) after_failure.runs ≡ false)
fail_step-ends_example = fail_step-ends after_claim at (codes "E") (codes "late") 3000 fail_result

abbrev second_claim : ClaimInput
second_claim = record claim_input { claim_id = codes "rival"; now = 2000 }

rival_result : claim_steps after_claim second_claim ≡ ok ([], after_claim)
unfolding claim_steps assert_claim_id candidates is_eligible order_steps insert_step start_runs
    update_where
rival_result = refl

claim_steps-Leased_example :
    Pairwise (λ old new. Leased second_claim old → new ≡ old) after_claim.steps after_claim.steps
claim_steps-Leased_example = claim_steps-Leased after_claim second_claim rival_result
