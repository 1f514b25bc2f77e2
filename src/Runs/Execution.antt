-- ===== src/Runs/Execution.antt =====
-- `getClaimedSqliteWorkflowStepExecution`: what a worker is given to execute a claimed step.
use byok_grid.Common.{
  ℕ, Bool, ◌&&◌, Option, none, some, List, [], ◌∷◌, ◌++◌, ◌==◌, any, find, length, if◌then◌else◌,
  Text, Result, ok, err, ◌>>=◌, ◌>>◌,
}
use byok_grid.Workflow.Plan.{Route, CompiledStep, CompiledPlan}
use byok_grid.Runs.Ledger.{
  StepStatus, StepRun, Run, Ledger, LedgerError, step_not_active, no_requesting_user,
  no_predecessor, same_status, is_running, assert_claim_id, require_plan_step, joined_plan,
}
use byok_grid.Runs.Settle.{Scope, mine}

pub record Inbound (J : Type 0) : Type 0 where
  pub output : Option J
  pub source_handle : Text
  pub source_step_id : ℕ
  pub target_handle : Text

pub record Execution (C J : Type 0) : Type 0 where
  pub inbound : List (Inbound J)
  pub requested_by_user_id : ℕ
  pub run_input : J
  pub step : CompiledStep C

abbrev pub succeeded_row : {J : Type 0} → Scope → StepRun J → Bool
succeeded_row at s =
    s.run_id == at.run_id
    && (s.workspace_id == at.workspace_id && same_status s.status StepStatus.succeeded)

abbrev pub last_output : {J : Type 0} → Option (Option J) → Bool → Option J → Option (Option J)
last_output (some later) matches output = some later
last_output none matches output = if matches then some output else none

-- `outputs.get(id)`: the map from the steps of the run that have succeeded to their outputs.
unfoldable pub output_of : {J : Type 0} → Scope → List (StepRun J) → ℕ → Option (Option J)
output_of at [] id = none
output_of at (s ∷ ss) id =
    last_output (output_of at ss id) (succeeded_row at s && s.step_id == id) s.output

abbrev pub inbound_of : {J : Type 0} → Route → Option (Option J) → List (Inbound J)
inbound_of r none = []
inbound_of r (some output) =
    record {
      output = output;
      source_handle = r.source_handle;
      source_step_id = r.source_step_id;
      target_handle = r.target_handle;
    }
    ∷ []

unfoldable pub inbound_items :
    {J : Type 0} → Scope → List (StepRun J) → List Route → List (Inbound J)
unfolding output_of
inbound_items at steps [] = []
inbound_items at steps (r ∷ rs) =
    inbound_of r (output_of at steps r.source_step_id) ++ inbound_items at steps rs

abbrev pub active_run : {J : Type 0} → Option (Run J) → Result LedgerError (Run J)
active_run none = err step_not_active
active_run (some r) = ok r

abbrev pub active_plan :
    {C : Type 0} → Option (CompiledPlan C) → Result LedgerError (CompiledPlan C)
active_plan none = err step_not_active
active_plan (some plan) = ok plan

abbrev pub requesting_user : Option ℕ → Result LedgerError ℕ
requesting_user none = err no_requesting_user
requesting_user (some user) = ok user

module _ {C J : Type 0} where
  -- The run of the claimed row, when it is running.
  unfoldable pub claimed_run : Ledger C J → Scope → Option (Run J)
  claimed_run db at =
      if any (mine at) db.steps
      then find
          (λ r. r.id == at.run_id && (r.workspace_id == at.workspace_id && is_running r.status))
          db.runs
      else none

  -- A step with inbound routes wants an output of one at least.
  unfoldable pub load_inbound :
      Ledger C J → Scope → CompiledStep C → Result LedgerError (List (Inbound J))
  unfolding inbound_items
  load_inbound db at step =
      let items = inbound_items at db.steps step.inbound_routes in
      if length step.inbound_routes == 0
      then ok []
      else if length items == 0
      then err no_predecessor
      else ok items

  unfoldable pub claimed_execution : Ledger C J → Scope → Result LedgerError (Execution C J)
  unfolding claimed_run
  claimed_execution db at = do
    assert_claim_id at.claim_id
    run ← active_run (claimed_run db at)
    plan ← active_plan (joined_plan db (some run))
    user ← requesting_user run.requested_by_user_id
    step ← require_plan_step plan at.step_id
    inbound ← load_inbound db at step
    ok (record {
      inbound = inbound;
      requested_by_user_id = user;
      run_input = run.input;
      step = step;
    })
