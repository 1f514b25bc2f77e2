-- ===== src/Runs/Ledger.antt =====
-- The tables of workflow runs (packages/db/src/sqlite/schema.ts), the checks on their inputs, and
-- the queries that the operations share. Times are milliseconds; ids are numbers.
use byok_grid.Common.{
  ℕ, Bool, true, false, not, ◌&&◌, ◌||◌, Option, none, some, List, [], ◌∷◌, ◌==◌, ltb, leb, any,
  find, take, length, if◌then◌else◌, Text, text_eq, is_control, trim, Result, ok, err, require,
}
use byok_grid.Workflow.Graph.{NodeKind}
use byok_grid.Workflow.Plan.{CompiledPlan, CompiledStep}

pub data StepStatus : Type 0 where
  blocked ready running succeeded failed skipped cancelled : StepStatus

pub data RunStatus : Type 0 where
  queued running succeeded failed cancelled : RunStatus

-- `workflow_step_runs`; `J` is the type of JSON values.
pub record StepRun (J : Type 0) : Type 0 where
  pub run_id : ℕ
  pub workspace_id : ℕ
  pub step_id : ℕ
  pub step_kind : NodeKind
  pub status : StepStatus
  pub attempt : ℕ
  pub claim_id : Option Text
  pub claimed_at : Option ℕ
  pub next_attempt_at : Option ℕ
  pub output : Option J
  pub error_code : Option Text
  pub error_message : Option Text
  pub started_at : Option ℕ
  pub finished_at : Option ℕ
  pub updated_at : ℕ

-- `workflow_runs`
pub record Run (J : Type 0) : Type 0 where
  pub id : ℕ
  pub workspace_id : ℕ
  pub workflow_id : ℕ
  pub workflow_version : ℕ
  pub graph_digest : Text
  pub requested_by_user_id : Option ℕ
  pub input : J
  pub status : RunStatus
  pub error_code : Option Text
  pub error_message : Option Text
  pub started_at : Option ℕ
  pub finished_at : Option ℕ
  pub updated_at : ℕ

-- The two tables, and the compiled plan of each published version in a workspace.
pub record Ledger (C J : Type 0) : Type 0 where
  pub runs : List (Run J)
  pub steps : List (StepRun J)
  pub plan_of : ℕ → ℕ → ℕ → Option (CompiledPlan C)

-- The three error classes, by their messages. `out_of_fuel` has no counterpart in the program.
pub data LedgerError : Type 0 where
  invalid_claim_id : LedgerError
  invalid_scope : LedgerError
  claim_conflict : LedgerError
  run_not_active : LedgerError
  step_not_in_plan : LedgerError
  invalid_route : LedgerError
  lease_expired : LedgerError
  invalid_error_code : LedgerError
  invalid_error_message : LedgerError
  invalid_json : LedgerError
  too_large : LedgerError
  input_not_object : LedgerError
  workflow_not_accessible : LedgerError
  plan_missing : LedgerError
  step_not_active : LedgerError
  no_requesting_user : LedgerError
  no_predecessor : LedgerError
  out_of_fuel : LedgerError

abbrev pub same_status : StepStatus → StepStatus → Bool
same_status blocked blocked = true
same_status ready ready = true
same_status running running = true
same_status succeeded succeeded = true
same_status failed failed = true
same_status skipped skipped = true
same_status cancelled cancelled = true
same_status _ _ = false

-- `inArray(status, ['blocked', 'ready', 'running'])`
abbrev pub is_open : StepStatus → Bool
is_open blocked = true
is_open ready = true
is_open running = true
is_open _ = false

-- `inArray(status, ['queued', 'running'])`
abbrev pub is_active : RunStatus → Bool
is_active queued = true
is_active running = true
is_active _ = false

abbrev pub is_running : RunStatus → Bool
is_running running = true
is_running _ = false

abbrev pub is_queued : RunStatus → Bool
is_queued queued = true
is_queued _ = false

abbrev pub same_claim : Option Text → Text → Bool
same_claim none claim = false
same_claim (some c) claim = text_eq c claim

-- A column compared with `<` or `<=`: NULL passes neither.
abbrev pub before : Option ℕ → ℕ → Bool
before none t = false
before (some s) t = ltb s t

abbrev pub coalesce : Option ℕ → ℕ → Option ℕ
coalesce none t = some t
coalesce (some s) t = some s

-- `assertClaimId`
unfoldable pub assert_claim_id : Text → Result LedgerError (Unit {0})
assert_claim_id claim =
    require (leb 1 (length claim) && (leb (length claim) 200 && not (any is_control claim)))
      invalid_claim_id

-- `/^[A-Za-z0-9_.-]+$/` on each character
unfoldable pub is_code_character : ℕ → Bool
is_code_character c =
    (leb b'A' c && leb c b'Z')
    || ((leb b'a' c && leb c b'z')
        || ((leb b'0' c && leb c b'9') || (c == b'_' || (c == b'.' || c == b'-'))))

abbrev pub all_of {ℓ} : {A : Type ℓ} → (A → Bool) → List A → Bool
all_of test [] = true
all_of test (x ∷ xs) = test x && all_of test xs

unfoldable pub safe_code : Text → Result LedgerError Text
unfolding is_code_character trim
safe_code value =
    let code = take 120 (trim value) in
    if leb 1 (length code) && all_of is_code_character code then ok code else err invalid_error_code

-- `value.replace(/[\r\n\t]/g, ' ')`
unfoldable pub flatten_lines : Text → Text
flatten_lines [] = []
flatten_lines (c ∷ s) = (if c == 13 || (c == 10 || c == 9) then 32 else c) ∷ flatten_lines s

unfoldable pub safe_message : Text → Result LedgerError Text
unfolding flatten_lines trim
safe_message value =
    let message = take 500 (trim (flatten_lines value)) in
    if leb 1 (length message) then ok message else err invalid_error_message

abbrev pub required {ℓ} : {A : Type ℓ} → Option A → Result LedgerError A
required none = err step_not_in_plan
required (some a) = ok a

module _ {C : Type 0} where
  -- `requirePlanStep`
  unfoldable pub require_plan_step : CompiledPlan C → ℕ → Result LedgerError (CompiledStep C)
  require_plan_step plan id = required (find (λ s. s.step_id == id) plan.steps)

  -- The plan of a run, by the join on its workflow, version and workspace.
  abbrev pub joined_plan : {J : Type 0} → Ledger C J → Option (Run J) → Option (CompiledPlan C)
  joined_plan db none = none
  joined_plan db (some r) = db.plan_of r.workflow_id r.workflow_version r.workspace_id

  -- `loadRunExecution`
  unfoldable pub load_plan : {J : Type 0} → Ledger C J → ℕ → ℕ → Result LedgerError (CompiledPlan C)
  load_plan db run workspace =
      elim (joined_plan db
        (find (λ r. r.id == run && (r.workspace_id == workspace && is_running r.status)) db.runs)) [
          | some plan ↦ ok plan
          | none ↦ err run_not_active
        ]

-- `stepClaimScope`
abbrev pub claim_scope : {J : Type 0} → Text → ℕ → ℕ → ℕ → StepRun J → Bool
claim_scope claim run step workspace s =
    s.run_id == run
    && (s.step_id == step
        && (s.workspace_id == workspace
            && (same_claim s.claim_id claim && same_status s.status running)))

-- The open steps of a run.
abbrev pub open_scope : {J : Type 0} → ℕ → ℕ → StepRun J → Bool
open_scope run workspace s = s.run_id == run && (s.workspace_id == workspace && is_open s.status)
