-- ===== src/Runs/Create.antt =====
-- `createSqliteWorkflowRun`: a run of the published version of an active workflow.
use byok_grid.Common.{
  ℕ, Bool, false, ◌&&◌, Option, none, some, List, [], ◌∷◌, ◌++◌, ◌==◌, any, find, if◌then◌else◌,
  Text, codes, Result, ok, err, ◌>>=◌, ◌>>◌, require,
}
use byok_grid.Workflow.Plan.{CompiledStep, CompiledPlan}
use byok_grid.Workflow.Validate.{member}
use byok_grid.Outbox.Events.{Event, EventType}
use byok_grid.Runs.Ledger.{
  StepStatus, RunStatus, StepRun, Run, Ledger, LedgerError, input_not_object,
  workflow_not_accessible, plan_missing,
}
use byok_grid.Runs.Settle.{Json, check_size}

-- `workflows`, the columns that are read.
pub record Workflow : Type 0 where
  pub id : ℕ
  pub workspace_id : ℕ
  pub published_version : Option ℕ
  pub active : Bool

-- `workflow_versions`; plans are missing from old versions.
pub record Version (C : Type 0) : Type 0 where
  pub workflow_id : ℕ
  pub workspace_id : ℕ
  pub version : ℕ
  pub graph_digest : Text
  pub compiled_plan : Option (CompiledPlan C)

-- The tables of published workflows; a member is a workspace and a user.
pub record Published (C : Type 0) : Type 0 where
  pub workflows : List Workflow
  pub versions : List (Version C)
  pub members : List (ℕ × ℕ)

pub record RunRequest : Type 0 where
  pub user_id : ℕ
  pub workspace_id : ℕ
  pub workflow_id : ℕ
  -- what the database makes up: the ids of the two rows, and the time
  pub run_id : ℕ
  pub event_id : ℕ
  pub now : ℕ

abbrev pub same_version : Option ℕ → ℕ → Bool
same_version none n = false
same_version (some m) n = n == m

module _ {C : Type 0} where
  abbrev pub version_of : Published C → Workflow → Option (Version C)
  version_of db w =
      find
        (λ v.
          v.workflow_id == w.id
          && (same_version w.published_version v.version && v.workspace_id == w.workspace_id))
        db.versions

  abbrev pub joined_version : Published C → Option Workflow → Option (Version C)
  joined_version db none = none
  joined_version db (some w) = version_of db w

  -- The query: the version of the active workflow, in a workspace of the user's.
  unfoldable pub published_version : Published C → RunRequest → Option (Version C)
  published_version db input =
      if any (λ m. m.0 == input.workspace_id && m.1 == input.user_id) db.members
      then joined_version db (
          find
            (λ w. w.id == input.workflow_id && (w.workspace_id == input.workspace_id && w.active))
            db.workflows)
      else none

  abbrev pub accessible : Option (Version C) → Result LedgerError (Version C)
  accessible none = err workflow_not_accessible
  accessible (some v) = ok v

  abbrev pub executable : Option (CompiledPlan C) → Result LedgerError (CompiledPlan C)
  executable none = err plan_missing
  executable (some plan) = ok plan

  abbrev pub first_row : {J : Type 0} → RunRequest → List ℕ → CompiledStep C → StepRun J
  first_row input entries step = record {
    run_id = input.run_id;
    workspace_id = input.workspace_id;
    step_id = step.step_id;
    step_kind = step.kind;
    status = if member step.step_id entries then StepStatus.ready else StepStatus.blocked;
    attempt = 0;
    claim_id = none;
    claimed_at = none;
    next_attempt_at = none;
    output = none;
    error_code = none;
    error_message = none;
    started_at = none;
    finished_at = none;
    updated_at = input.now;
  }

  abbrev pub first_rows :
      {J : Type 0} → RunRequest → List ℕ → List (CompiledStep C) → List (StepRun J)
  first_rows input entries [] = []
  first_rows input entries (s ∷ ss) = first_row input entries s ∷ first_rows input entries ss

  abbrev pub queued_run : {J : Type 0} → RunRequest → J → Version C → Run J
  queued_run input value v = record {
    id = input.run_id;
    workspace_id = input.workspace_id;
    workflow_id = v.workflow_id;
    workflow_version = v.version;
    graph_digest = v.graph_digest;
    requested_by_user_id = some input.user_id;
    input = value;
    status = RunStatus.queued;
    error_code = none;
    error_message = none;
    started_at = none;
    finished_at = none;
    updated_at = input.now;
  }

-- The event's payload is the run and the workspace.
abbrev pub requested_event : RunRequest → Event (ℕ × ℕ)
requested_event input = record {
  id = input.event_id;
  workspace_id = input.workspace_id;
  aggregate_id = input.run_id;
  aggregate_type = codes "workflow_run";
  event_type = EventType.workflow_run_requested;
  payload = (input.run_id, input.workspace_id);
  created_at = input.now;
  published_at = none;
  dispatch_attempts = 0;
  dispatch_claim_id = none;
  dispatch_claimed_at = none;
  dispatch_last_error = none;
  dispatch_next_attempt_at = none;
}

-- `parseRunInput`
unfoldable pub parse_run_input : (js : Json) → js.Value → Result LedgerError js.Value
parse_run_input js value = do
  require (js.is_object value) input_not_object
  check_size (js.stringify value) 65536 (js.copy value)

module _ {C : Type 0} (js : Json) where
  abbrev pub with_run :
      Ledger C js.Value → RunRequest → js.Value → Version C → CompiledPlan C → Ledger C js.Value
  with_run db input value v plan = record db {
    runs = db.runs ++ queued_run input value v ∷ [];
    steps = db.steps ++ first_rows input plan.entry_step_ids plan.steps;
  }

  -- The new run, the tables, and the event for the outbox.
  unfoldable pub create_run :
      Published C
      → Ledger C js.Value
      → RunRequest
      → js.Value
      → Result LedgerError (Run js.Value × Ledger C js.Value × Event (ℕ × ℕ))
  create_run authoring db input run_input = do
    value ← parse_run_input js run_input
    version ← accessible (published_version authoring input)
    plan ← executable version.compiled_plan
    ok (queued_run input value version, with_run db input value version plan, requested_event input)
