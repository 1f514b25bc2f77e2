-- ===== src/Runs/Lifecycle.antt =====
-- The life of a step: which statuses follow which, and what each operation does to a row.
use byok_grid.Common.{
  Pairwise, Pairwise-trans, update_where-Pairwise, ℕ, ◌≤◌, ◌≡◌, refl, Bool, true, false, ◌&&◌,
  Option, List, Text, ok, update_where, ◌∙◌, ap, inl, inr, arith, ◌⊎◌,
}
use byok_grid.Runs.Ledger.{
  StepStatus, blocked, ready, running, succeeded, failed, skipped, cancelled, StepRun, Run,
  RunStatus, Ledger, is_open, open_scope, same_status,
}
use byok_grid.Runs.Claim.{
  ClaimInput, ClaimedStep, claim_steps, claims, claimed, candidates, is_eligible,
}
use byok_grid.Runs.Settle.{
  Scope, Json, complete_step, retry_step, fail_step, activate, skip, mine, blocked_scope, completed,
  retried, failed_step, cancelled_step, activated, skipped_row,
}
use byok_grid.Runs.Outcomes.{
  claim_steps-ok, complete_step-ok, retry_step-ok, fail_step-ok, active_targets,
}

infix 40 ◌⟶◌ ◌⟶*◌
pub data ◌⟶◌ : StepStatus → StepStatus → Type 0 where
  release : blocked ⟶ ready
  drop : blocked ⟶ skipped
  claim : ready ⟶ running
  reclaim : running ⟶ running
  retry : running ⟶ ready
  succeed : running ⟶ succeeded
  fail : running ⟶ failed
  cancel : {s : StepStatus} → is_open s ≡ true → s ⟶ cancelled

pub data ◌⟶*◌ : StepStatus → StepStatus → Type 0 where
  here : {s : StepStatus} → s ⟶* s
  next : {s t u : StepStatus} → s ⟶ t → t ⟶* u → s ⟶* u

pub ⟶*-trans : {s t u : StepStatus} → s ⟶* t → t ⟶* u → s ⟶* u
⟶*-trans here q = q
⟶*-trans (next a p) q = next a (⟶*-trans p q)

edge_path : {s t s' t' : StepStatus} → s ≡ s' → t ≡ t' → s' ⟶ t' → s ⟶* t
edge_path p q e = rw (p, q) (next e here)

-- What an operation may do to a row.
pub record Moves {J : Type 0} (old new : StepRun J) : Type 0 where
  pub same_run : new.run_id ≡ old.run_id
  pub same_step : new.step_id ≡ old.step_id
  pub same_workspace : new.workspace_id ≡ old.workspace_id
  pub path : old.status ⟶* new.status
  pub attempts : old.attempt ≤ new.attempt
  pub settled : is_open old.status ≡ false → new ≡ old

pub Moves-refl : {J : Type 0} (s : StepRun J) → Moves s s
Moves-refl s = record {
  same_run = refl;
  same_step = refl;
  same_workspace = refl;
  path = here;
  attempts = omega arith;
  settled = λ _. refl;
}

pub Moves-trans : {J : Type 0} (s t u : StepRun J) → Moves s t → Moves t u → Moves s u
Moves-trans s t u p q = record {
  same_run = q.same_run ∙ p.same_run;
  same_step = q.same_step ∙ p.same_step;
  same_workspace = q.same_workspace ∙ p.same_workspace;
  path = ⟶*-trans p.path q.path;
  attempts = omega arith;
  settled = λ done. q.settled (rw (p.settled done) done) ∙ p.settled done;
}

pub AllMove-trans :
    {J : Type 0} (xs ys zs : List (StepRun J))
    → Pairwise Moves xs ys
    → Pairwise Moves ys zs
    → Pairwise Moves xs zs
AllMove-trans = Pairwise-trans Moves Moves-trans

update_where-Moves :
    {J : Type 0} (test : StepRun J → Bool) (change : StepRun J → StepRun J)
    → ((s : StepRun J) → test s ≡ true → Moves s (change s))
    → (xs : List (StepRun J)) → Pairwise Moves xs (update_where test change xs)
update_where-Moves test change moves =
    update_where-Pairwise Moves test change moves (λ s _. Moves-refl s)

same_status→eq : (s t : StepStatus) → same_status s t ≡ true → s ≡ t
same_status→eq s t h = ground arith

and_right : (a b : Bool) → (a && b) ≡ true → b ≡ true
and_right a b h = ground arith

abbrev SameKey : {J : Type 0} → StepRun J → StepRun J → Type 0
SameKey old new =
    (new.run_id ≡ old.run_id) × (new.step_id ≡ old.step_id) × (new.workspace_id ≡ old.workspace_id)

open-Moves :
    {J : Type 0} (old new : StepRun J)
    → SameKey old new
    → old.status ⟶* new.status
    → old.attempt ≤ new.attempt
    → is_open old.status ≡ true
    → Moves old new
open-Moves old new key path attempts open_row = record {
  same_run = key.0;
  same_step = key.1;
  same_workspace = key.2;
  path = path;
  attempts = attempts;
  settled = λ done. cc;
}

module _ {J : Type 0} where
  blocked-Moves :
      (at : Scope) (ids : List ℕ) (s : StepRun J)
      → blocked_scope at.run_id at.workspace_id ids s ≡ true
      → s.status ≡ blocked
  blocked-Moves at ids s h = ground (arith, same_status→eq s.status blocked)

  activate-Moves :
      (at : Scope) (now : ℕ) (ids : List ℕ) (xs : List (StepRun J))
      → Pairwise Moves xs (activate at now ids xs)
  unfolding activate
  activate-Moves at now ids =
      update_where-Moves (blocked_scope at.run_id at.workspace_id ids) _ (λ s h.
        open-Moves s (activated now s) (refl, refl, refl)
          (edge_path (blocked-Moves at ids s h) refl release) (omega arith)
          (ap is_open (blocked-Moves at ids s h)))

  skip-Moves :
      (at : Scope) (now : ℕ) (ids : List ℕ) (xs : List (StepRun J))
      → Pairwise Moves xs (skip at now ids xs)
  unfolding skip
  skip-Moves at now ids = update_where-Moves (blocked_scope at.run_id at.workspace_id ids) _ (λ s h.
      open-Moves s (skipped_row now s) (refl, refl, refl)
        (edge_path (blocked-Moves at ids s h) refl drop) (omega arith)
        (ap is_open (blocked-Moves at ids s h)))

  mine-running : (at : Scope) (s : StepRun J) → mine at s ≡ true → s.status ≡ running
  mine-running at s h = ground (arith, same_status→eq s.status running)

  -- A claimed row may succeed, fail or go back.
  mine-Moves :
      (at : Scope) (change : StepRun J → StepRun J) (status : StepStatus)
      → ((s : StepRun J)
          → SameKey s (change s) × ((change s).attempt ≡ s.attempt) × ((change s).status ≡ status))
      → running ⟶ status
      → (xs : List (StepRun J)) → Pairwise Moves xs (update_where (mine at) change xs)
  mine-Moves at change status keeps edge = update_where-Moves (mine at) change (λ s h.
      open-Moves s (change s) (keeps s).0 (edge_path (mine-running at s h) (keeps s).2 edge)
        (omega (arith, (keeps s).1)) (ap is_open (mine-running at s h)))

  cancel-Moves :
      (at : Scope) (now : ℕ) (xs : List (StepRun J))
      → Pairwise Moves xs
          (update_where (open_scope at.run_id at.workspace_id) (cancelled_step now) xs)
  cancel-Moves at now =
      update_where-Moves (open_scope at.run_id at.workspace_id) (cancelled_step now) (λ s h.
        open-Moves s (cancelled_step now s) (refl, refl, refl) (next (cancel (ground arith)) here)
          (omega arith) (ground arith))

  eligible-status :
      (runs : List (Run J)) (input : ClaimInput) (s : StepRun J)
      → is_eligible runs input s ≡ true
      → (s.status ≡ ready) ⊎ (s.status ≡ running)
  unfolding is_eligible
  eligible-status runs input s h =
      ground (arith, same_status→eq s.status ready, same_status→eq s.status running)

  claim-Moves :
      (runs : List (Run J)) (input : ClaimInput) (picked xs : List (StepRun J))
      → Pairwise Moves xs (update_where (claims runs input picked) (claimed input) xs)
  claim-Moves runs input picked =
      update_where-Moves (claims runs input picked) (claimed input)
        (λ s h. claimed_moves s (eligible-status runs input s (and_right _ _ h)))
    where
      claimed_moves :
          (s : StepRun J) → (s.status ≡ ready) ⊎ (s.status ≡ running) → Moves s (claimed input s)
      claimed_moves s (inl e) =
          open-Moves s (claimed input s) (refl, refl, refl) (edge_path e refl claim) (omega arith)
            (ap is_open e)
      claimed_moves s (inr e) =
          open-Moves s (claimed input s) (refl, refl, refl) (edge_path e refl reclaim) (omega arith)
            (ap is_open e)

-- Whatever a claim does to the table of steps keeps each row's key, follows the life of a step,
-- never lowers its attempts, and leaves a settled row as it is.
pub claim_steps-Moves :
    {C J : Type 0} (db : Ledger C J) (input : ClaimInput) {reports : List ClaimedStep}
    {db' : Ledger C J}
    → claim_steps db input ≡ ok (reports, db')
    → Pairwise Moves db.steps db'.steps
claim_steps-Moves db input h =
    let (_, steps, _) = claim_steps-ok db input h in
    rw steps (claim-Moves db.runs input (candidates db.runs input db.steps) db.steps)

-- So does the completion of a step,
pub complete_step-Moves :
    {C : Type 0} (js : Json) (db : Ledger C js.Value) (at : Scope) (active : List Text)
    (output : Option js.Value) (now : ℕ) {status : RunStatus} {db' : Ledger C js.Value}
    → complete_step js db at active output now ≡ ok (status, db')
    → Pairwise Moves db.steps db'.steps
complete_step-Moves js db at active output now h =
    let (stored, plan, step, dropped, _, _, _, steps, _, _) =
      complete_step-ok js db at active output now h in
    rw steps (
      AllMove-trans db.steps (update_where (mine at) (completed js stored now) db.steps) _
        (mine-Moves at (completed js stored now) succeeded (λ s. ((refl, refl, refl), refl, refl))
          succeed db.steps)
        (AllMove-trans _ _ _
          (activate-Moves at now (active_targets active step)
            (update_where (mine at) (completed js stored now) db.steps))
          (skip-Moves at now dropped (
            activate at now (active_targets active step)
              (update_where (mine at) (completed js stored now) db.steps)))))

-- its return for another attempt,
pub retry_step-Moves :
    {C J : Type 0} (db : Ledger C J) (at : Scope) (code message : Text) (retry_at now : ℕ)
    {db' : Ledger C J}
    → retry_step db at code message retry_at now ≡ ok db'
    → Pairwise Moves db.steps db'.steps
retry_step-Moves db at code message retry_at now h =
    let (code', message', _, _, _, steps) = retry_step-ok db at code message retry_at now h in
    rw steps (
      mine-Moves at (retried code' message' retry_at now) ready
        (λ s. ((refl, refl, refl), refl, refl)) retry db.steps)

-- and its failure, which ends the run.
pub fail_step-Moves :
    {C J : Type 0} (db : Ledger C J) (at : Scope) (code message : Text) (now : ℕ) {db' : Ledger C J}
    → fail_step db at code message now ≡ ok db'
    → Pairwise Moves db.steps db'.steps
fail_step-Moves db at code message now h =
    let (code', message', _, _, _, steps, _) = fail_step-ok db at code message now h in
    rw steps (
      AllMove-trans db.steps (update_where (mine at) (failed_step code' message' now) db.steps) _
        (mine-Moves at (failed_step code' message' now) failed
          (λ s. ((refl, refl, refl), refl, refl)) fail db.steps)
        (cancel-Moves at now (update_where (mine at) (failed_step code' message' now) db.steps)))
