-- ===== src/Runs/Trace.antt =====
-- Sequences of operations by any workers, in any order.
use byok_grid.Common.{
  Pairwise, Pairwise-refl, ℕ, ◌≡◌, ◌≢◌, refl, Bool, true, Option, none, List, [], ◌∷◌,
  if◌then◌else◌, Text, All, ok, update_where, Bool-cases, inl, inr, arith, ◌⊎◌,
}
use byok_grid.Runs.Ledger.{running, StepRun, RunStatus, Ledger, open_scope}
use byok_grid.Runs.Claim.{ClaimInput, ClaimedStep, claim_steps, claims, claimed, candidates}
use byok_grid.Runs.Settle.{
  Scope, Json, complete_step, retry_step, fail_step, mine, completed, retried, failed_step,
  cancelled_step, activate, skip, activated, skipped_row, blocked_scope,
}
use byok_grid.Runs.Outcomes.{
  claim_steps-ok, complete_step-ok, retry_step-ok, fail_step-ok, active_targets,
}
use byok_grid.Runs.Lifecycle.{
  Moves, Moves-refl, AllMove-trans, claim_steps-Moves, complete_step-Moves, retry_step-Moves,
  fail_step-Moves,
}

module _ {J : Type 0} where
  -- `workflow_step_runs_claim_state`, the CHECK constraint of the table.
  abbrev pub ClaimState : StepRun J → Type 0
  ClaimState s =
      (((s.claim_id ≡ none) × (s.claimed_at ≡ none))
        ⊎ ((s.claim_id ≢ none) × (s.claimed_at ≢ none)))
      × ((s.status ≡ running) ⊎ ((s.claim_id ≡ none) × (s.claimed_at ≡ none)))

  constraint_kept :
      (test : StepRun J → Bool) (change : StepRun J → StepRun J)
      → ((s : StepRun J) → test s ≡ true → ClaimState s → ClaimState (change s))
      → (xs : List (StepRun J)) → All ClaimState xs
      → All ClaimState (update_where test change xs)
  unfolding update_where
  constraint_kept test change keeps [] all = tt
  constraint_kept test change keeps (x ∷ xs) all = (row, constraint_kept test change keeps xs all.1)
    where
      row : ClaimState (if test x then change x else x)
      row = elim (Bool-cases (test x)) [ inl e ↦ rw e (keeps x e all.0) | inr e ↦ rw e all.0 ]

  -- A blocked row holds no claim, so neither does it when it is activated or skipped.
  blocked-ClaimState :
      (at : Scope) (ids : List ℕ) (s : StepRun J)
      → blocked_scope at.run_id at.workspace_id ids s ≡ true
      → ClaimState s
      → (s.claim_id ≡ none) × (s.claimed_at ≡ none)
  blocked-ClaimState at ids s h c = ground arith

module _ {C : Type 0} (js : Json) where
  -- One successful operation.
  pub data Step (db db' : Ledger C js.Value) : Type 0 where
    claims_some :
        (input : ClaimInput) (reports : List ClaimedStep)
        → claim_steps db input ≡ ok (reports, db')
        → Step db db'
    completes :
        (at : Scope) (active : List Text) (output : Option js.Value) (now : ℕ) (status : RunStatus)
        → complete_step js db at active output now ≡ ok (status, db')
        → Step db db'
    retries :
        (at : Scope) (code message : Text) (retry_at now : ℕ)
        → retry_step db at code message retry_at now ≡ ok db'
        → Step db db'
    fails :
        (at : Scope) (code message : Text) (now : ℕ)
        → fail_step db at code message now ≡ ok db'
        → Step db db'

  pub data Reach (db : Ledger C js.Value) : Ledger C js.Value → Type 0 where
    here : Reach db db
    next : {db' db'' : Ledger C js.Value} → Reach db db' → Step db' db'' → Reach db db''

  Step-Moves : {db db' : Ledger C js.Value} → Step db db' → Pairwise Moves db.steps db'.steps
  Step-Moves {db} (claims_some input reports h) = claim_steps-Moves db input h
  Step-Moves {db} (completes at active output now status h) =
      complete_step-Moves js db at active output now h
  Step-Moves {db} (retries at code message retry_at now h) =
      retry_step-Moves db at code message retry_at now h
  Step-Moves {db} (fails at code message now h) = fail_step-Moves db at code message now h

  -- After any sequence of successful claims, completions, retries and failures every row has its key
  -- still, a status that the life of a step leads to from its old one, and at least its old
  -- attempts; and a row that had succeeded, failed, been skipped or been cancelled is as it was, its
  -- output included.
  pub Reach-Moves : {db db' : Ledger C js.Value} → Reach db db' → Pairwise Moves db.steps db'.steps
  Reach-Moves {db} here = Pairwise-refl Moves Moves-refl db.steps
  Reach-Moves {db} (next {db'} {db''} r s) =
      AllMove-trans db.steps db'.steps db''.steps (Reach-Moves r) (Step-Moves s)

  Step-ClaimState :
      {db db' : Ledger C js.Value}
      → Step db db'
      → All ClaimState db.steps
      → All ClaimState db'.steps
  unfolding activate skip
  Step-ClaimState {db} (claims_some input reports h) all =
      let (_, steps, _) = claim_steps-ok db input h in
      rw steps (
        constraint_kept (claims db.runs input (candidates db.runs input db.steps)) (claimed input)
          (λ s t c. (inr (cc, cc), inl refl)) db.steps all)
  Step-ClaimState {db} (completes at active output now status h) all =
      let (stored, plan, step, dropped, _, _, _, steps, _, _) =
        complete_step-ok js db at active output now h in
      let done =
        constraint_kept (mine at) (completed js stored now)
          (λ s t c. (inl (refl, refl), inr (refl, refl))) db.steps all in
      let open_next =
        constraint_kept (blocked_scope at.run_id at.workspace_id (active_targets active step))
          (activated now)
          (λ s t c.
            let (p, q) = blocked-ClaimState at (active_targets active step) s t c in
            (inl (p, q), inr (p, q)))
          _ done in
      rw steps (
        constraint_kept (blocked_scope at.run_id at.workspace_id dropped) (skipped_row now)
          (λ s t c. let (p, q) = blocked-ClaimState at dropped s t c in (inl (p, q), inr (p, q))) _
          open_next)
  Step-ClaimState {db} (retries at code message retry_at now h) all =
      let (code', message', _, _, _, steps) = retry_step-ok db at code message retry_at now h in
      rw steps (
        constraint_kept (mine at) (retried code' message' retry_at now)
          (λ s t c. (inl (refl, refl), inr (refl, refl))) db.steps all)
  Step-ClaimState {db} (fails at code message now h) all =
      let (code', message', _, _, _, steps, _) = fail_step-ok db at code message now h in
      rw steps (
        constraint_kept (open_scope at.run_id at.workspace_id) (cancelled_step now)
          (λ s t c. (inl (refl, refl), inr (refl, refl))) _
          (constraint_kept (mine at) (failed_step code' message' now)
            (λ s t c. (inl (refl, refl), inr (refl, refl))) db.steps all))

  -- Where every row has both a claim and its time or neither, and has them only while it runs, as a
  -- constraint of the table asks, that is so after any sequence of successful claims, completions,
  -- retries and failures.
  pub Reach-ClaimState :
      {db db' : Ledger C js.Value}
      → Reach db db'
      → All ClaimState db.steps
      → All ClaimState db'.steps
  Reach-ClaimState here all = all
  Reach-ClaimState (next r s) all = Step-ClaimState s (Reach-ClaimState r all)
