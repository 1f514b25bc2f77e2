-- ===== src/Runs/Created.antt =====
-- What the creation of a run writes.
use byok_grid.Common.{
  ℕ, ◌≡◌, ◌⊎◌, inl, inr, refl, ap, Bool, true, false, Option, none, some, List, [], ◌∷◌, ◌++◌,
  if◌then◌else◌, All, Result, ok, ◌>>=◌, >>=-eq-ok, arith,
}
use byok_grid.Workflow.Plan.{CompiledStep, CompiledPlan}
use byok_grid.Workflow.Compile.{step_ids}
use byok_grid.Workflow.Validate.{member}
use byok_grid.Outbox.Events.{Event}
use byok_grid.Runs.Ledger.{StepStatus, StepRun, Run, Ledger, LedgerError}
use byok_grid.Runs.Settle.{Json}
use byok_grid.Runs.Create.{
  Published, RunRequest, Version, published_version, accessible, executable, first_rows, queued_run,
  with_run, requested_event, parse_run_input, create_run,
}
use byok_grid.Runs.Trace.{ClaimState}

abbrev pub row_ids : {J : Type 0} → List (StepRun J) → List ℕ
row_ids [] = []
row_ids (s ∷ ss) = s.step_id ∷ row_ids ss

-- A new row of the run: ready when its step is an entry, and blocked when it is not.
abbrev pub NewRow : {J : Type 0} → RunRequest → List ℕ → StepRun J → Type 0
NewRow input entries s =
    (s.run_id ≡ input.run_id)
    × (s.workspace_id ≡ input.workspace_id)
    × (((s.status ≡ StepStatus.ready) × (member s.step_id entries ≡ true))
        ⊎ ((s.status ≡ StepStatus.blocked) × (member s.step_id entries ≡ false)))
    × ClaimState s

first_status :
    (b : Bool)
    → (((if b then StepStatus.ready else StepStatus.blocked) ≡ StepStatus.ready) × (b ≡ true))
      ⊎ (((if b then StepStatus.ready else StepStatus.blocked) ≡ StepStatus.blocked) × (b ≡ false))
first_status true = inl (refl, refl)
first_status false = inr (refl, refl)

module _ {C : Type 0} (J : Type 0) (input : RunRequest) (entries : List ℕ) where
  first_rows-NewRow :
      (steps : List (CompiledStep C))
      → All (NewRow input entries) (first_rows {J = J} input entries steps)
  first_rows-NewRow [] = tt
  first_rows-NewRow (s ∷ ss) = (
    (refl, refl, first_status (member s.step_id entries), (inl (refl, refl), inr (refl, refl))),
    first_rows-NewRow ss,
  )

  row_ids-first_rows :
      (steps : List (CompiledStep C))
      → row_ids (first_rows {J = J} input entries steps) ≡ step_ids steps
  row_ids-first_rows [] = refl
  row_ids-first_rows (s ∷ ss) = ap (λ ids. s.step_id ∷ ids) (row_ids-first_rows ss)

accessible-eq-ok :
    {C : Type 0} (o : Option (Version C)) {v : Version C} → accessible o ≡ ok v → o ≡ some v
accessible-eq-ok none h = cc
accessible-eq-ok (some v) h = cc

executable-eq-ok :
    {C : Type 0} (o : Option (CompiledPlan C)) {plan : CompiledPlan C}
    → executable o ≡ ok plan
    → o ≡ some plan
executable-eq-ok none h = cc
executable-eq-ok (some plan) h = cc

module _ {C : Type 0} (js : Json) where
  -- A run that is created adds to the table of steps a row for each step of the published plan, in
  -- the plan's order: ready and unclaimed when the step is an entry of the plan, blocked and
  -- unclaimed when it is not; the older rows stay as they are.
  pub create_run-NewRow :
      (authoring : Published C) (db : Ledger C js.Value) (input : RunRequest) (run_input : js.Value)
      {run : Run js.Value} {db' : Ledger C js.Value} {event : Event (ℕ × ℕ)}
      → create_run js authoring db input run_input ≡ ok (run, db', event)
      → (version : Version C) × (plan : CompiledPlan C) × (rows : List (StepRun js.Value))
        × (published_version authoring input ≡ some version)
        × (version.compiled_plan ≡ some plan)
        × (db'.steps ≡ db.steps ++ rows)
        × (row_ids rows ≡ step_ids plan.steps)
        × All (NewRow input plan.entry_step_ids) rows
  unfolding create_run
  create_run-NewRow authoring db input run_input {run} {db'} {event} h =
      let write : js.Value
          → Version C
          → CompiledPlan C
          → Result LedgerError (Run js.Value × Ledger C js.Value × Event (ℕ × ℕ)) =
        λ value version plan. ok (
          queued_run input value version,
          with_run js db input value version plan,
          requested_event input,
        ) in
      let execute = λ (value : js.Value) (version : Version C).
        executable version.compiled_plan >>= write value version in
      let (value, _, after_input) =
        >>=-eq-ok (parse_run_input js run_input)
          (λ value. accessible (published_version authoring input) >>= execute value) h in
      let (version, found, after_version) =
        >>=-eq-ok (accessible (published_version authoring input)) (execute value) after_input in
      let (plan, planned, written) =
        >>=-eq-ok (executable version.compiled_plan) (write value version) after_version in
      (
        version,
        plan,
        first_rows input plan.entry_step_ids plan.steps,
        accessible-eq-ok (published_version authoring input) found,
        executable-eq-ok version.compiled_plan planned,
        ground arith,
        row_ids-first_rows js.Value input plan.entry_step_ids plan.steps,
        first_rows-NewRow js.Value input plan.entry_step_ids plan.steps,
      )
