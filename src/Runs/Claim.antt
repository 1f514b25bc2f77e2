-- ===== src/Runs/Claim.antt =====
-- `claimSqliteWorkflowSteps`: a worker takes a batch of steps under a lease.
use Prim.Native.Nat.{min, max}
use byok_grid.Common.{
  ℕ, ◌+◌, ◌-◌, ◌*◌, Bool, true, false, not, ◌&&◌, ◌||◌, Option, none, some, List, [], ◌∷◌, ◌==◌,
  ltb, leb, any, keep, take, length, if◌then◌else◌, Text, Result, ok, ◌>>◌, require, update_where,
  map,
}
use byok_grid.Workflow.Graph.{NodeKind}
use byok_grid.Workflow.Validate.{member}
use byok_grid.Runs.Ledger.{
  StepStatus, ready, running, StepRun, Run, RunStatus, Ledger, LedgerError, invalid_scope,
  claim_conflict, same_status, is_active, is_queued, before, coalesce, assert_claim_id,
}

pub record ClaimInput : Type 0 where
  pub claim_id : Text
  pub lease_seconds : Option ℕ
  pub limit : Option ℕ
  pub now : ℕ
  pub run_id : Option ℕ
  pub workspace_id : Option ℕ

pub record ClaimedStep : Type 0 where
  pub attempt : ℕ
  pub kind : NodeKind
  pub run_id : ℕ
  pub step_id : ℕ
  pub workspace_id : ℕ

abbrev pub value_or : Option ℕ → ℕ → ℕ
value_or none d = d
value_or (some n) d = n

abbrev pub stale_before : ClaimInput → ℕ
stale_before input = input.now - max 30 (min (value_or input.lease_seconds 300) 3600) * 1000

abbrev pub claim_limit : ClaimInput → ℕ
claim_limit input = max 1 (min (value_or input.limit 25) 250)

abbrev is_given : Option ℕ → Bool
is_given none = false
is_given (some _) = true

abbrev same_given : Bool → Bool → Bool
same_given true b = b
same_given false b = not b

abbrev in_scope : Option ℕ → ℕ → Bool
in_scope none n = true
in_scope (some m) n = n == m

-- A ready step is due when it has no retry time or a past one.
abbrev is_due : Option ℕ → ℕ → Bool
is_due none now = true
is_due (some t) now = leb t now

-- `workflowStepEligibility`
unfoldable pub is_eligible : {J : Type 0} → List (Run J) → ClaimInput → StepRun J → Bool
is_eligible runs input s =
    in_scope input.run_id s.run_id
    && (in_scope input.workspace_id s.workspace_id
        && (((same_status s.status ready && is_due s.next_attempt_at input.now)
              || (same_status s.status running && before s.claimed_at (stale_before input)))
            && any (λ r. r.id == s.run_id && is_active r.status) runs))

-- `orderBy(asc(updatedAt), asc(stepId))`
abbrev comes_first : {J : Type 0} → StepRun J → StepRun J → Bool
comes_first a b =
    ltb a.updated_at b.updated_at || (a.updated_at == b.updated_at && leb a.step_id b.step_id)

unfoldable pub insert_step : {J : Type 0} → StepRun J → List (StepRun J) → List (StepRun J)
insert_step s [] = s ∷ []
insert_step s (t ∷ ts) =
    let rest = insert_step s ts in if comes_first s t then s ∷ t ∷ ts else t ∷ rest

unfoldable pub order_steps : {J : Type 0} → List (StepRun J) → List (StepRun J)
unfolding insert_step
order_steps [] = []
order_steps (s ∷ ss) = insert_step s (order_steps ss)

abbrev pub same_row : {J : Type 0} → StepRun J → StepRun J → Bool
same_row a b = a.run_id == b.run_id && a.step_id == b.step_id

unfoldable pub candidates :
    {J : Type 0} → List (Run J) → ClaimInput → List (StepRun J) → List (StepRun J)
unfolding is_eligible order_steps
candidates runs input steps =
    take (claim_limit input) (order_steps (keep (is_eligible runs input) steps))

-- The columns that the claim sets.
abbrev pub claimed : {J : Type 0} → ClaimInput → StepRun J → StepRun J
claimed input s = record s {
  attempt = s.attempt + 1;
  claim_id = some input.claim_id;
  claimed_at = some input.now;
  error_code = none;
  error_message = none;
  next_attempt_at = none;
  started_at = coalesce s.started_at input.now;
  status = StepStatus.running;
  updated_at = input.now;
}

abbrev pub claims : {J : Type 0} → List (Run J) → ClaimInput → List (StepRun J) → StepRun J → Bool
claims runs input picked s = any (λ c. same_row c s) picked && is_eligible runs input s

-- A queued run starts when one of its steps is claimed.
unfoldable pub start_runs : {J : Type 0} → ℕ → List ℕ → List (Run J) → List (Run J)
start_runs now ids =
    update_where (λ r. member r.id ids && is_queued r.status)
      (λ r. record r {
        started_at = coalesce r.started_at now;
        status = RunStatus.running;
        updated_at = now;
      })

abbrev report : {J : Type 0} → StepRun J → ClaimedStep
report s = record {
  attempt = s.attempt + 1;
  kind = s.step_kind;
  run_id = s.run_id;
  step_id = s.step_id;
  workspace_id = s.workspace_id;
}

unfoldable pub claim_steps :
    {C J : Type 0} → Ledger C J → ClaimInput → Result LedgerError (List ClaimedStep × Ledger C J)
claim_steps db input = do
  assert_claim_id input.claim_id
  require (same_given (is_given input.run_id) (is_given input.workspace_id)) invalid_scope
  let picked = candidates db.runs input db.steps
  let updated = keep (claims db.runs input picked) db.steps
  require (length updated == length picked) claim_conflict
  ok (
    map report picked,
    record db {
      steps = update_where (claims db.runs input picked) (claimed input) db.steps;
      runs = start_runs input.now (map (λ s. s.run_id) picked) db.runs;
    },
  )
