-- ===== src/Runs/Settle.antt =====
-- How a claimed step ends: `completeSqliteWorkflowStep`, `retrySqliteWorkflowStep` and
-- `failSqliteWorkflowStep`. A thrown error rolls the transaction back, so it leaves no new state.
use byok_grid.Common.{
  ℕ, Bool, false, not, ◌&&◌, ◌||◌, Option, none, some, List, [], ◌∷◌, ◌==◌, ltb, any, if◌then◌else◌,
  Text, text_eq, Result, ok, err, ◌>>=◌, ◌>>◌, require, update_where,
}
use byok_grid.Workflow.Plan.{Route, CompiledPlan, CompiledStep}
use byok_grid.Workflow.Validate.{member}
use byok_grid.Runs.Ledger.{
  StepStatus, StepRun, Run, RunStatus, Ledger, LedgerError, invalid_route, lease_expired,
  invalid_json, too_large, same_status, is_open, is_active, is_running, assert_claim_id, safe_code,
  safe_message, require_plan_step, load_plan, claim_scope, open_scope, all_of,
}
use byok_grid.Runs.Skip.{collect_skipped}

abbrev pub has_text : Text → List Text → Bool
has_text t ts = any (λ u. text_eq u t) ts

-- `new Set(handles).size !== handles.length`
abbrev pub repeats : List Text → Bool
repeats [] = false
repeats (t ∷ ts) = has_text t ts || repeats ts

abbrev pub route_handles : List Route → List Text
route_handles [] = []
route_handles (r ∷ rs) = r.source_handle ∷ route_handles rs

unfoldable pub valid_handles : List Text → List Route → Bool
valid_handles active routes =
    not (repeats active) && all_of (λ h. has_text h (route_handles routes)) active

-- The targets of the routes whose handle is active, or not.
unfoldable pub targets_where : (Route → Bool) → List Route → List ℕ
targets_where test [] = []
targets_where test (r ∷ rs) =
    let rest = targets_where test rs in if test r then r.target_step_id ∷ rest else rest

pub record Scope : Type 0 where
  pub claim_id : Text
  pub run_id : ℕ
  pub step_id : ℕ
  pub workspace_id : ℕ

-- What `JSON.stringify` does with a value: it throws, it yields `undefined`, or it yields a text of
-- so many bytes in UTF-8.
pub data Stringified : Type 0 where
  throws : Stringified
  undefined : Stringified
  text_of : ℕ → Stringified

-- The runtime's JSON values; `copy` is what parsing a value's text gives back.
pub record Json : Type 1 where
  pub Value : Type 0
  pub null : Value
  -- neither null nor an array
  pub is_object : Value → Bool
  pub stringify : Value → Stringified
  pub copy : Value → Value

-- `parseJsonValue`
abbrev pub check_size {ℓ} : {A : Type ℓ} → Stringified → ℕ → A → Result LedgerError A
check_size throws maximum copy = err invalid_json
check_size undefined maximum copy = err too_large
check_size (text_of size) maximum copy = if ltb maximum size then err too_large else ok copy

module _ (js : Json) where
  -- An output that is not given is stored as `null`.
  unfoldable pub parse_output : Option js.Value → Result LedgerError js.Value
  parse_output none = ok js.null
  parse_output (some value) = check_size (js.stringify value) 1048576 (js.copy value)

  abbrev pub completed : js.Value → ℕ → StepRun js.Value → StepRun js.Value
  completed output now s = record s {
    claim_id = none;
    claimed_at = none;
    error_code = none;
    error_message = none;
    finished_at = some now;
    next_attempt_at = none;
    output = some output;
    status = StepStatus.succeeded;
    updated_at = now;
  }

-- The rows of the run that still wait, with an id of the list.
abbrev pub blocked_scope : {J : Type 0} → ℕ → ℕ → List ℕ → StepRun J → Bool
blocked_scope run workspace ids s =
    s.run_id == run
    && (s.workspace_id == workspace
        && (same_status s.status StepStatus.blocked && member s.step_id ids))

abbrev pub activated : {J : Type 0} → ℕ → StepRun J → StepRun J
activated now s = record s { status = StepStatus.ready; updated_at = now }

abbrev pub skipped_row : {J : Type 0} → ℕ → StepRun J → StepRun J
skipped_row now s = record s {
  finished_at = some now;
  status = StepStatus.skipped;
  updated_at = now;
}

unfoldable pub activate : {J : Type 0} → Scope → ℕ → List ℕ → List (StepRun J) → List (StepRun J)
activate at now ids = update_where (blocked_scope at.run_id at.workspace_id ids) (activated now)

unfoldable pub skip : {J : Type 0} → Scope → ℕ → List ℕ → List (StepRun J) → List (StepRun J)
skip at now ids = update_where (blocked_scope at.run_id at.workspace_id ids) (skipped_row now)

abbrev pub mine : {J : Type 0} → Scope → StepRun J → Bool
mine at = claim_scope at.claim_id at.run_id at.step_id at.workspace_id

-- The count of the run's open steps is not 0.
unfoldable pub has_open : {J : Type 0} → ℕ → List (StepRun J) → Bool
has_open run steps = any (λ s. s.run_id == run && is_open s.status) steps

unfoldable pub finish_run : {J : Type 0} → Scope → ℕ → List (Run J) → List (Run J)
finish_run at now =
    update_where
      (λ r. r.id == at.run_id && (r.workspace_id == at.workspace_id && is_running r.status))
      (λ r. record r { finished_at = some now; status = RunStatus.succeeded; updated_at = now })

-- The end of the transaction: the run succeeds once none of its steps is open.
unfoldable pub close_run :
    {C J : Type 0} → Ledger C J → Scope → ℕ → List (StepRun J) → RunStatus × Ledger C J
unfolding has_open finish_run
close_run db at now steps =
    if has_open at.run_id steps
    then (RunStatus.running, record db { steps = steps })
    else (RunStatus.succeeded, record db { steps = steps; runs = finish_run at now db.runs })

-- The transaction of `completeSqliteWorkflowStep` once it has the plan and the step.
unfoldable pub settle_step :
    {C : Type 0} (js : Json)
    → Ledger C js.Value
    → Scope
    → List Text
    → js.Value
    → ℕ
    → CompiledPlan C
    → CompiledStep C
    → Result LedgerError (RunStatus × Ledger C js.Value)
settle_step js db at active output now plan step = do
  require (valid_handles active step.outbound_routes) invalid_route
  require (any (mine at) db.steps) lease_expired
  let active_targets = targets_where (λ r. has_text r.source_handle active) step.outbound_routes
  let inactive_targets =
      targets_where (λ r. not (has_text r.source_handle active)) step.outbound_routes
  skipped ← collect_skipped plan active_targets inactive_targets
  ok (
      close_run db at now (
        skip at now skipped (
          activate at now active_targets
            (update_where (mine at) (completed js output now) db.steps))))

-- `completeSqliteWorkflowStep`, with the output as it is stored.
unfoldable pub settle_success :
    {C : Type 0} (js : Json)
    → Ledger C js.Value
    → Scope
    → List Text
    → js.Value
    → ℕ
    → Result LedgerError (RunStatus × Ledger C js.Value)
settle_success js db at active output now = do
  plan ← load_plan db at.run_id at.workspace_id
  step ← require_plan_step plan at.step_id
  settle_step js db at active output now plan step

unfoldable pub complete_step :
    {C : Type 0} (js : Json)
    → Ledger C js.Value
    → Scope
    → List Text
    → Option js.Value
    → ℕ
    → Result LedgerError (RunStatus × Ledger C js.Value)
complete_step js db at active output now =
    assert_claim_id at.claim_id
    >> (parse_output js output >>= λ stored. settle_success js db at active stored now)

abbrev pub retried : {J : Type 0} → Text → Text → ℕ → ℕ → StepRun J → StepRun J
retried code message retry_at now s = record s {
  claim_id = none;
  claimed_at = none;
  error_code = some code;
  error_message = some message;
  next_attempt_at = some retry_at;
  status = StepStatus.ready;
  updated_at = now;
}

unfoldable pub retry_step :
    {C J : Type 0} → Ledger C J → Scope → Text → Text → ℕ → ℕ → Result LedgerError (Ledger C J)
retry_step db at error_code error_message retry_at now = do
  assert_claim_id at.claim_id
  code ← safe_code error_code
  message ← safe_message error_message
  require (any (mine at) db.steps) lease_expired
  ok (record db { steps = update_where (mine at) (retried code message retry_at now) db.steps })

abbrev pub failed_step : {J : Type 0} → Text → Text → ℕ → StepRun J → StepRun J
failed_step code message now s = record s {
  claim_id = none;
  claimed_at = none;
  error_code = some code;
  error_message = some message;
  finished_at = some now;
  status = StepStatus.failed;
  updated_at = now;
}

abbrev pub cancelled_step : {J : Type 0} → ℕ → StepRun J → StepRun J
cancelled_step now s = record s {
  claim_id = none;
  claimed_at = none;
  finished_at = some now;
  status = StepStatus.cancelled;
  updated_at = now;
}

unfoldable pub fail_runs : {J : Type 0} → Scope → Text → Text → ℕ → List (Run J) → List (Run J)
fail_runs at code message now =
    update_where
      (λ r. r.id == at.run_id && (r.workspace_id == at.workspace_id && is_active r.status))
      (λ r. record r {
        error_code = some code;
        error_message = some message;
        finished_at = some now;
        status = RunStatus.failed;
        updated_at = now;
      })

unfoldable pub fail_step :
    {C J : Type 0} → Ledger C J → Scope → Text → Text → ℕ → Result LedgerError (Ledger C J)
fail_step db at error_code error_message now = do
  assert_claim_id at.claim_id
  code ← safe_code error_code
  message ← safe_message error_message
  require (any (mine at) db.steps) lease_expired
  let settled = update_where (mine at) (failed_step code message now) db.steps
  ok (record db {
    steps = update_where (open_scope at.run_id at.workspace_id) (cancelled_step now) settled;
    runs = fail_runs at code message now db.runs;
  })
