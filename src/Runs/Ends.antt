-- ===== src/Runs/Ends.antt =====
-- How a run ends: by the failure of a step, or when its last open step is completed.
use byok_grid.Common.{
  ℕ, ◌≡◌, ◌⊎◌, refl, sym, subst, Bool, true, false, ◌&&◌, Option, some, List, [], ◌∷◌, ◌==◌, ==_iff,
  any, Text, ok, All, Pairwise, update_where, update_where-clears, update_where-Pairwise, arith,
  Bool-cases, inl, inr,
}
use byok_grid.Runs.Ledger.{
  is_open, StepStatus, StepRun, Run, RunStatus, Ledger, is_active, is_running, open_scope,
}
use byok_grid.Runs.Settle.{
  Scope, Json, complete_step, fail_step, mine, failed_step, cancelled_step, fail_runs, has_open,
  finish_run, close_run,
}
use byok_grid.Runs.Outcomes.{complete_step-ok, fail_step-ok, settled_steps}

abbrev pub run_scope : {J : Type 0} → (RunStatus → Bool) → Scope → Run J → Bool
run_scope test at r = r.id == at.run_id && (r.workspace_id == at.workspace_id && test r.status)

-- After a step has failed, no step of its run is blocked, ready or running, and the run is neither
-- queued nor running.
pub fail_step-ends :
    {C J : Type 0} (db : Ledger C J) (at : Scope) (code message : Text) (now : ℕ) {db' : Ledger C J}
    → fail_step db at code message now ≡ ok db'
    → (any (open_scope at.run_id at.workspace_id) db'.steps ≡ false)
      × (any (run_scope is_active at) db'.runs ≡ false)
unfolding fail_runs
fail_step-ends db at code message now h =
    let (code', message', _, _, _, steps, runs) = fail_step-ok db at code message now h in
    (
      rw steps (
          update_where-clears (open_scope at.run_id at.workspace_id) (cancelled_step now)
            (open_scope at.run_id at.workspace_id) (λ s t. ground arith) (λ s t. t)
            (update_where (mine at) (failed_step code' message' now) db.steps)),
      rw runs (
          update_where-clears (run_scope is_active at) _ (run_scope is_active at)
            (λ r t. ground arith) (λ r t. t) db.runs),
    )

-- What a completed run's row becomes.
abbrev pub run_succeeded : {J : Type 0} → ℕ → Run J → Run J
run_succeeded now r = record r {
  finished_at = some now;
  status = RunStatus.succeeded;
  updated_at = now;
}

-- The run of the scope has succeeded if it was running, and no other row has changed.
abbrev pub Succeeds : {J : Type 0} → Scope → ℕ → Run J → Run J → Type 0
Succeeds at now old new =
    ((run_scope is_running at old ≡ true) × (new ≡ run_succeeded now old))
    ⊎ ((run_scope is_running at old ≡ false) × (new ≡ old))

abbrev pub Settled : StepStatus → Type 0
Settled StepStatus.blocked = ⊥
Settled StepStatus.ready = ⊥
Settled StepStatus.running = ⊥
Settled StepStatus.succeeded = Unit
Settled StepStatus.failed = Unit
Settled StepStatus.skipped = Unit
Settled StepStatus.cancelled = Unit

-- The steps of the run are settled.
abbrev pub AllSettled : {J : Type 0} → ℕ → List (StepRun J) → Type 0
AllSettled run = All (λ s. s.run_id ≡ run → Settled s.status)

Settled-open : (t : StepStatus) → is_open t ≡ true → ¬ Settled t
Settled-open StepStatus.blocked h = λ settled. settled
Settled-open StepStatus.ready h = λ settled. settled
Settled-open StepStatus.running h = λ settled. settled
Settled-open StepStatus.succeeded h = cc
Settled-open StepStatus.failed h = cc
Settled-open StepStatus.skipped h = cc
Settled-open StepStatus.cancelled h = cc

open-Settled : (t : StepStatus) → is_open t ≡ false → Settled t
open-Settled StepStatus.blocked h = cc
open-Settled StepStatus.ready h = cc
open-Settled StepStatus.running h = cc
open-Settled StepStatus.succeeded h = tt
open-Settled StepStatus.failed h = tt
open-Settled StepStatus.skipped h = tt
open-Settled StepStatus.cancelled h = tt

has_open-AllSettled :
    {J : Type 0} (run : ℕ) (steps : List (StepRun J))
    → has_open run steps ≡ false
    → AllSettled run steps
unfolding has_open
has_open-AllSettled run [] h = tt
has_open-AllSettled run (s ∷ ss) h = (
  (λ same.
      let here : (s.run_id == run) ≡ true = (==_iff s.run_id run).1 same in
      open-Settled s.status (ground arith)),
  has_open-AllSettled run ss (ground arith),
)

has_open-not_settled :
    {J : Type 0} (run : ℕ) (steps : List (StepRun J))
    → has_open run steps ≡ true
    → ¬ AllSettled run steps
unfolding has_open
has_open-not_settled run [] h = cc
has_open-not_settled run (s ∷ ss) h = elim (Bool-cases (s.run_id == run && is_open s.status)) [
  | inl here ↦
      λ all. Settled-open s.status (ground arith) (all.0 ((==_iff s.run_id run).0 (ground arith)))
  | inr later ↦ λ all. has_open-not_settled run ss (ground arith) all.1
]

finish_run-Succeeds :
    {J : Type 0} (at : Scope) (now : ℕ) (runs : List (Run J))
    → Pairwise (Succeeds at now) runs (finish_run at now runs)
unfolding finish_run
finish_run-Succeeds at now runs =
    update_where-Pairwise (Succeeds at now) (run_scope is_running at) (run_succeeded now)
      (λ r t. inl (t, refl)) (λ r t. inr (t, refl)) runs

abbrev pub Closed : {C J : Type 0} → Ledger C J → Scope → ℕ → RunStatus → Ledger C J → Type 0
Closed db at now status db' =
    ((¬ AllSettled at.run_id db'.steps) × (status ≡ RunStatus.running) × (db'.runs ≡ db.runs))
    ⊎ (AllSettled at.run_id db'.steps
        × (status ≡ RunStatus.succeeded)
        × Pairwise (Succeeds at now) db.runs db'.runs)

close_run-Closed :
    {C J : Type 0} (db : Ledger C J) (at : Scope) (now : ℕ) (steps : List (StepRun J))
    → Closed db at now (close_run db at now steps).0 (close_run db at now steps).1
unfolding close_run
close_run-Closed db at now steps = elim (Bool-cases (has_open at.run_id steps)) [
  | inl e ↦ rw e (inl (has_open-not_settled at.run_id steps e, refl, refl))
  | inr e ↦
      rw e (inr (has_open-AllSettled at.run_id steps e, refl, finish_run-Succeeds at now db.runs))
]

-- A completion reports that the run goes on, and leaves the runs as they were, while a step of the
-- run is blocked, ready or running. Once all steps of the run have succeeded, failed, been skipped
-- or been cancelled, it reports that the run has succeeded: the row of the run, if it was running,
-- has the status succeeded and the time of the completion, and nothing else in the runs changes.
pub complete_step-Closed :
    {C : Type 0} (js : Json) (db : Ledger C js.Value) (at : Scope) (active : List Text)
    (output : Option js.Value) (now : ℕ) {status : RunStatus} {db' : Ledger C js.Value}
    → complete_step js db at active output now ≡ ok (status, db')
    → Closed db at now status db'
complete_step-Closed js db at active output now {status} {db'} h =
    let (stored, _, step, dropped, _, _, _, _, _, end) =
      complete_step-ok js db at active output now h in
    subst (λ r. Closed db at now r.0 r.1) (sym end)
      (close_run-Closed db at now (settled_steps js db at active stored now step dropped))
