-- ===== src/Runs/Skipped.antt =====
-- The fuel of the loop of `collectSkippedDescendants`.
use byok_grid.Common.{
  ℕ, zero, suc, ◌+◌, ◌≤◌, ◌≡◌, ◌≢◌, inl, inr, refl, ap, Bool, true, false, ◌||◌, none, some, List,
  [], ◌∷◌, ◌++◌, ◌==◌, find, if◌then◌else◌, length, length-append, ok, err, Bool-cases,
  Option-cases, arith, ==_iff,
}
use byok_grid.Workflow.Plan.{Route, CompiledStep, CompiledPlan}
use byok_grid.Workflow.Validate.{member}
use byok_grid.Runs.Ledger.{out_of_fuel, step_not_in_plan, required, require_plan_step}
use byok_grid.Runs.Skip.{route_targets, skip_step, route_count, skip_loop, collect_skipped}

-- The routes of the steps that are not in the set yet.
abbrev unvisited : {C : Type 0} → List (CompiledStep C) → List ℕ → ℕ
unvisited [] seen = 0
unvisited (s ∷ ss) seen =
    (if member s.step_id seen then 0 else length s.outbound_routes) + unvisited ss seen

unvisited-nil : {C : Type 0} (ss : List (CompiledStep C)) → unvisited ss [] ≡ route_count ss
unvisited-nil [] = refl
unvisited-nil (s ∷ ss) = omega (arith, unvisited-nil ss)

unvisited-le :
    {C : Type 0} (ss : List (CompiledStep C)) (seen : List ℕ) (id : ℕ)
    → unvisited ss (id ∷ seen) ≤ unvisited ss seen
unvisited-le [] seen id = omega arith
unvisited-le (s ∷ ss) seen id = ground (arith, unvisited-le ss seen id)

length-route_targets : (rs : List Route) → length (route_targets rs) ≡ length rs
length-route_targets [] = refl
length-route_targets (r ∷ rs) = omega (arith, length-route_targets rs)

found_here :
    {C : Type 0} (s : CompiledStep C) (ss : List (CompiledStep C)) (id : ℕ) {step : CompiledStep C}
    → s.step_id == id ≡ true
    → find (λ s. s.step_id == id) (s ∷ ss) ≡ some step
    → s ≡ step
found_here s ss id same h =
    let e : find (λ s. s.step_id == id) (s ∷ ss) ≡ some s = rw same refl in cc

found_later :
    {C : Type 0} (s : CompiledStep C) (ss : List (CompiledStep C)) (id : ℕ) {step : CompiledStep C}
    → s.step_id == id ≡ false
    → find (λ s. s.step_id == id) (s ∷ ss) ≡ some step
    → find (λ s. s.step_id == id) ss ≡ some step
found_later s ss id other h =
    let e : find (λ s. s.step_id == id) (s ∷ ss) ≡ find (λ s. s.step_id == id) ss = rw other refl in
    cc

-- A step that is found and not in the set takes its routes off the count.
unvisited-visit :
    {C : Type 0} (ss : List (CompiledStep C)) (seen : List ℕ) (id : ℕ) {step : CompiledStep C}
    → find (λ s. s.step_id == id) ss ≡ some step
    → member id seen ≡ false
    → unvisited ss (id ∷ seen) + length step.outbound_routes ≤ unvisited ss seen
unvisited-visit [] seen id h new = cc
unvisited-visit (s ∷ ss) seen id {step} h new = elim (Bool-cases (s.step_id == id)) [
  | inl same ↦
      let e : s.step_id ≡ id = (==_iff s.step_id id).0 same in
      let t : s ≡ step = found_here s ss id same h in
      let n : length s.outbound_routes ≡ length step.outbound_routes = cc in
      let m : member s.step_id seen ≡ false = cc in ground (arith, unvisited-le ss seen id)
  | inr other ↦
      let rest = unvisited-visit ss seen id (found_later s ss id other h) new in ground arith
]

pub plan_step-none :
    {C : Type 0} (plan : CompiledPlan C) (id : ℕ)
    → find (λ s. s.step_id == id) plan.steps ≡ none
    → require_plan_step plan id ≡ err step_not_in_plan
unfolding require_plan_step
plan_step-none plan id missing = ap required missing

pub plan_step-some :
    {C : Type 0} (plan : CompiledPlan C) (id : ℕ) {step : CompiledStep C}
    → find (λ s. s.step_id == id) plan.steps ≡ some step
    → require_plan_step plan id ≡ ok step
unfolding require_plan_step
plan_step-some plan id found = ap required found

or_false : (a b : Bool) → a || b ≡ false → a ≡ false
or_false true b h = cc
or_false false b h = refl

module _ {C : Type 0} (plan : CompiledPlan C) (protected : List ℕ) where
  loop_total :
      (fuel : ℕ) (skipped pending : List ℕ)
      → length pending + unvisited plan.steps skipped ≤ fuel
      → skip_loop plan protected fuel skipped pending ≢ err out_of_fuel
  unfolding skip_loop skip_step
  loop_total fuel skipped [] enough = λ e. cc
  loop_total zero skipped (id ∷ pending) enough = absurd (omega arith)
  loop_total (suc fuel) skipped (id ∷ pending) enough =
      elim (Bool-cases (member id skipped || member id protected)) [
        | inl old ↦ let ih = loop_total fuel skipped pending (omega arith) in rw old ih
        | inr new ↦ elim (Option-cases (find (λ s. s.step_id == id) plan.steps)) [
          | inl missing ↦ rw (new, plan_step-none plan id missing) (λ e. cc)
          | inr (step, found) ↦
              rw (new, plan_step-some plan id found)
                let more = unvisited-visit plan.steps skipped id found (or_false _ _ new) in
                  let count : length (pending ++ route_targets step.outbound_routes)
                      ≡ length pending + length step.outbound_routes =
                    omega (
                      arith,
                      length-append pending (route_targets step.outbound_routes),
                      length-route_targets step.outbound_routes,
                    ) in
                  loop_total fuel (id ∷ skipped) (pending ++ route_targets step.outbound_routes)
                    (omega arith)
        ]
      ]

  -- The loop of `collectSkippedDescendants` ends: a round for each initial id and each route is
  -- enough, whatever the plan.
  pub collect_skipped-total :
      (initial : List ℕ) → collect_skipped plan protected initial ≢ err out_of_fuel
  unfolding collect_skipped
  collect_skipped-total initial =
      loop_total (length initial + route_count plan.steps) [] initial
        (omega (arith, unvisited-nil plan.steps))
