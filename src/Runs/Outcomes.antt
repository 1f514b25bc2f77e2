-- ===== src/Runs/Outcomes.antt =====
-- What a successful operation found and wrote.
use byok_grid.Common.{
  ℕ, ◌≡◌, ap, ◌∙◌, true, not, Option, List, any, Text, ok, ◌>>=◌, >>=-eq-ok, >>-eq-ok, update_where,
  arith, map,
}
use byok_grid.Workflow.Plan.{CompiledPlan, CompiledStep}
use byok_grid.Runs.Ledger.{
  StepRun, RunStatus, Ledger, open_scope, assert_claim_id, safe_code, safe_message, load_plan,
  require_plan_step,
}
use byok_grid.Runs.Claim.{
  ClaimInput, ClaimedStep, claim_steps, claims, claimed, candidates, start_runs,
}
use byok_grid.Runs.Skip.{collect_skipped}
use byok_grid.Runs.Settle.{
  Scope, Json, settle_success, settle_step, complete_step, parse_output, retry_step, fail_step,
  activate, skip, mine, completed, retried, failed_step, cancelled_step, fail_runs, close_run,
  targets_where, has_text,
}

abbrev pub active_targets : {C : Type 0} → List Text → CompiledStep C → List ℕ
active_targets active step =
    targets_where (λ r. has_text r.source_handle active) step.outbound_routes

abbrev pub inactive_targets : {C : Type 0} → List Text → CompiledStep C → List ℕ
inactive_targets active step =
    targets_where (λ r. not (has_text r.source_handle active)) step.outbound_routes

-- The table of steps after a completion.
abbrev pub settled_steps :
    {C : Type 0} (js : Json)
    → Ledger C js.Value
    → Scope
    → List Text
    → js.Value
    → ℕ
    → CompiledStep C
    → List ℕ
    → List (StepRun js.Value)
settled_steps js db at active stored now step skipped = skip at now skipped (
    activate at now (active_targets active step)
      (update_where (mine at) (completed js stored now) db.steps))

pub claim_steps-ok :
    {C J : Type 0} (db : Ledger C J) (input : ClaimInput) {reports : List ClaimedStep}
    {db' : Ledger C J}
    → claim_steps db input ≡ ok (reports, db')
    → (assert_claim_id input.claim_id ≡ ok tt)
      × (db'.steps
          ≡ update_where
              (claims db.runs input (candidates db.runs input db.steps))
              (claimed input)
              db.steps)
      × (db'.runs
          ≡ start_runs input.now (map (λ s. s.run_id) (candidates db.runs input db.steps)) db.runs)
unfolding claim_steps
claim_steps-ok db input h = ground arith

pub retry_step-ok :
    {C J : Type 0} (db : Ledger C J) (at : Scope) (code message : Text) (retry_at now : ℕ)
    {db' : Ledger C J}
    → retry_step db at code message retry_at now ≡ ok db'
    → (code' : Text) × (message' : Text) × (safe_code code ≡ ok code')
      × (safe_message message ≡ ok message')
      × (any (mine at) db.steps ≡ true)
      × (db'.steps ≡ update_where (mine at) (retried code' message' retry_at now) db.steps)
unfolding retry_step
retry_step-ok db at code message retry_at now h = ground arith

pub fail_step-ok :
    {C J : Type 0} (db : Ledger C J) (at : Scope) (code message : Text) (now : ℕ) {db' : Ledger C J}
    → fail_step db at code message now ≡ ok db'
    → (code' : Text) × (message' : Text) × (safe_code code ≡ ok code')
      × (safe_message message ≡ ok message')
      × (any (mine at) db.steps ≡ true)
      × (db'.steps
          ≡ update_where
              (open_scope at.run_id at.workspace_id)
              (cancelled_step now)
              (update_where (mine at) (failed_step code' message' now) db.steps))
      × (db'.runs ≡ fail_runs at code' message' now db.runs)
unfolding fail_step
fail_step-ok db at code message now h = ground arith

settle_success-plan :
    {C : Type 0} (js : Json) (db : Ledger C js.Value) (at : Scope) (active : List Text)
    (stored : js.Value) (now : ℕ) {r : RunStatus × Ledger C js.Value}
    → settle_success js db at active stored now ≡ ok r
    → (plan : CompiledPlan C) × (step : CompiledStep C) × (load_plan db at.run_id at.workspace_id
        ≡ ok plan)
      × (require_plan_step plan at.step_id ≡ ok step)
      × (settle_step js db at active stored now plan step ≡ ok r)
unfolding settle_success
settle_success-plan {C} js db at active stored now h =
    let rest = λ (plan : CompiledPlan C).
      require_plan_step plan at.step_id >>= settle_step js db at active stored now plan in
    let (plan, loaded, h') = >>=-eq-ok (load_plan db at.run_id at.workspace_id) rest h in
    let (step, found, settled) =
      >>=-eq-ok (require_plan_step plan at.step_id) (settle_step js db at active stored now plan)
        h' in
    (plan, step, loaded, found, settled)

settle_step-ok :
    {C : Type 0} (js : Json) (db : Ledger C js.Value) (at : Scope) (active : List Text)
    (stored : js.Value) (now : ℕ) (plan : CompiledPlan C) (step : CompiledStep C)
    {r : RunStatus × Ledger C js.Value}
    → settle_step js db at active stored now plan step ≡ ok r
    → (skipped : List ℕ) × (any (mine at) db.steps ≡ true)
      × (collect_skipped plan (active_targets active step) (inactive_targets active step)
          ≡ ok skipped)
      × (r ≡ close_run db at now (settled_steps js db at active stored now step skipped))
unfolding settle_step
settle_step-ok js db at active stored now plan step h = ground arith

settle_success-ok :
    {C : Type 0} (js : Json) (db : Ledger C js.Value) (at : Scope) (active : List Text)
    (stored : js.Value) (now : ℕ) {r : RunStatus × Ledger C js.Value}
    → settle_success js db at active stored now ≡ ok r
    → (plan : CompiledPlan C) × (step : CompiledStep C) × (skipped : List ℕ) × (load_plan db
          at.run_id at.workspace_id
        ≡ ok plan)
      × (require_plan_step plan at.step_id ≡ ok step)
      × (any (mine at) db.steps ≡ true)
      × (collect_skipped plan (active_targets active step) (inactive_targets active step)
          ≡ ok skipped)
      × (r ≡ close_run db at now (settled_steps js db at active stored now step skipped))
settle_success-ok js db at active stored now h =
    let (plan, step, loaded, found, rest) = settle_success-plan js db at active stored now h in
    let (walked, claimed, walk, end) = settle_step-ok js db at active stored now plan step rest in
    (plan, step, walked, loaded, found, claimed, walk, end)

close_run-steps :
    {C J : Type 0} (db : Ledger C J) (at : Scope) (now : ℕ) (steps : List (StepRun J))
    → (close_run db at now steps).1.steps ≡ steps
unfolding close_run
close_run-steps db at now steps = ground arith

pub complete_step-ok :
    {C : Type 0} (js : Json) (db : Ledger C js.Value) (at : Scope) (active : List Text)
    (output : Option js.Value) (now : ℕ) {status : RunStatus} {db' : Ledger C js.Value}
    → complete_step js db at active output now ≡ ok (status, db')
    → (stored : js.Value) × (plan : CompiledPlan C) × (step : CompiledStep C) × (skipped : List ℕ)
      × (load_plan db at.run_id at.workspace_id ≡ ok plan)
      × (require_plan_step plan at.step_id ≡ ok step)
      × (any (mine at) db.steps ≡ true)
      × (db'.steps ≡ settled_steps js db at active stored now step skipped)
      × (collect_skipped plan (active_targets active step) (inactive_targets active step)
          ≡ ok skipped)
      × ((status, db')
          ≡ close_run db at now (settled_steps js db at active stored now step skipped))
unfolding complete_step
complete_step-ok js db at active output now h =
    let (_, parsed) =
      >>-eq-ok (assert_claim_id at.claim_id)
        (parse_output js output >>= λ stored. settle_success js db at active stored now) h in
    let (stored, _, settled) =
      >>=-eq-ok (parse_output js output) (λ stored. settle_success js db at active stored now)
        parsed in
    let (plan, step, skipped, loaded, found, claimed, walk, end) =
      settle_success-ok js db at active stored now settled in
    (
      stored,
      plan,
      step,
      skipped,
      loaded,
      found,
      claimed,
      ap (λ r. r.1.steps) end
          ∙ close_run-steps db at now (settled_steps js db at active stored now step skipped),
      walk,
      end,
    )
