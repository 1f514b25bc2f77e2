-- ===== src/Runs/Closure.antt =====
-- Which steps `collectSkippedDescendants` returns.
use byok_grid.Common.{
  ℕ, zero, suc, ◌+◌, ◌≡◌, inl, inr, refl, ap, ◌∙◌, sym, subst, Bool, true, false, ◌||◌, List, [],
  ◌∷◌, ◌++◌, ◌==◌, ==_iff, find, length, Result, ok, Bool-cases, Option-cases, arith,
}
use byok_grid.Workflow.Plan.{CompiledStep, CompiledPlan}
use byok_grid.Workflow.Validate.{member}
use byok_grid.Runs.Ledger.{LedgerError, require_plan_step}
use byok_grid.Runs.Skip.{route_targets, skip_step, route_count, skip_loop, collect_skipped}
use byok_grid.Runs.Skipped.{plan_step-none, plan_step-some}

member-append : (t : ℕ) (xs ys : List ℕ) → member t (xs ++ ys) ≡ (member t xs || member t ys)
member-append t [] ys = refl
member-append t (x ∷ xs) ys = ground (arith, member-append t xs ys)

-- An id that is in the set or protected need not be pending.
drop_head :
    (id target : ℕ) (s p q : List ℕ)
    → (member id s || member id p) ≡ true
    → (member target s || (member target p || member target (id ∷ q))) ≡ true
    → (member target s || (member target p || member target q)) ≡ true
drop_head id target s p q old h = elim (Bool-cases (id == target)) [
  | inl same ↦
      let e : id ≡ target = (==_iff id target).0 same in
      let here : (member target s || member target p) ≡ true =
        subst (λ x. (member x s || member x p) ≡ true) e old in
      ground arith
  | inr other ↦ ground arith
]

-- The head moves from the queue to the set.
visit_head :
    (id target : ℕ) (s p q r : List ℕ)
    → (member target s || (member target p || member target (id ∷ q))) ≡ true
    → (member target (id ∷ s) || (member target p || member target (q ++ r))) ≡ true
visit_head id target s p q r h = ground (arith, member-append target q r)

fresh_target :
    (id target : ℕ) (s p q r : List ℕ)
    → member target r ≡ true
    → (member target (id ∷ s) || (member target p || member target (q ++ r))) ≡ true
fresh_target id target s p q r h = ground (arith, member-append target q r)

tail_member :
    (id x : ℕ) (s : List ℕ) → (id == x) ≡ false → member x (id ∷ s) ≡ true → member x s ≡ true
tail_member id x s apart m = ground arith

same_step :
    {C : Type 0} {a b : CompiledStep C}
    → ◌≡◌ {A = Result LedgerError (CompiledStep C)} (ok a) (ok b)
    → a ≡ b
same_step h = cc

or_false : (a b : Bool) → (a || b) ≡ false → (a ≡ false) × (b ≡ false)
or_false a b h = ground arith

taken_old :
    (id x : ℕ) (s p q end : List ℕ)
    → (member id s || member id p) ≡ true
    → (member id s ≡ true → member id end ≡ true)
    → (member x q ≡ true → (member x end || member x p) ≡ true)
    → member x (id ∷ q) ≡ true
    → (member x end || member x p) ≡ true
taken_old id x s p q end old kept rest m = elim (Bool-cases (id == x)) [
  | inl same ↦
      let here : (member id end || member id p) ≡ true = ground arith in
      subst (λ y. (member y end || member y p) ≡ true) ((==_iff id x).0 same) here
  | inr apart ↦ rest (tail_member id x q apart m)
]

module _ {C : Type 0} (plan : CompiledPlan C) (protected : List ℕ) where
  -- No id of the set is protected, and the targets of its steps are in it, protected, or pending.
  pub record Spreads (pending skipped : List ℕ) : Type 0 where
    pub unprotected : (id : ℕ) → member id skipped ≡ true → member id protected ≡ false
    pub spread :
        (id target : ℕ) (step : CompiledStep C)
        → member id skipped ≡ true
        → require_plan_step plan id ≡ ok step
        → member target (route_targets step.outbound_routes) ≡ true
        → (member target skipped || (member target protected || member target pending)) ≡ true

  pub record WalkResult (skipped pending end : List ℕ) : Type 0 where
    pub spreads : Spreads [] end
    pub keeps : (id : ℕ) → member id skipped ≡ true → member id end ≡ true
    pub takes : (id : ℕ) → member id pending ≡ true → (member id end || member id protected) ≡ true

  dropped-Spreads :
      (id : ℕ) (skipped pending : List ℕ)
      → (member id skipped || member id protected) ≡ true
      → Spreads (id ∷ pending) skipped
      → Spreads pending skipped
  dropped-Spreads id skipped pending old inv = record {
    unprotected = inv.unprotected;
    spread = λ x target step m found out.
        drop_head id target skipped protected pending old (inv.spread x target step m found out);
  }

  visited-Spreads :
      (id : ℕ) (skipped pending : List ℕ) (step : CompiledStep C)
      → member id protected ≡ false
      → require_plan_step plan id ≡ ok step
      → Spreads (id ∷ pending) skipped
      → Spreads (pending ++ route_targets step.outbound_routes) (id ∷ skipped)
  visited-Spreads id skipped pending step free found inv = record {
    unprotected = λ x m. elim (Bool-cases (id == x)) [
      | inl same ↦ subst (λ y. member y protected ≡ false) ((==_iff id x).0 same) free
      | inr apart ↦ inv.unprotected x (tail_member id x skipped apart m)
    ];
    spread = λ x target other m at out. elim (Bool-cases (id == x)) [
      | inl same ↦
          let e : step ≡ other =
            same_step (sym found ∙ (ap (require_plan_step plan) ((==_iff id x).0 same) ∙ at)) in
          fresh_target id target skipped protected pending (route_targets step.outbound_routes)
            (subst (λ o. member target (route_targets o.outbound_routes) ≡ true) (sym e) out)
      | inr apart ↦
          visit_head id target skipped protected pending (route_targets step.outbound_routes)
            (inv.spread x target other (tail_member id x skipped apart m) at out)
    ];
  }

  loop-Result :
      (fuel : ℕ) (skipped pending : List ℕ) {end : List ℕ}
      → skip_loop plan protected fuel skipped pending ≡ ok end
      → Spreads pending skipped
      → WalkResult skipped pending end
  unfolding skip_loop skip_step
  loop-Result fuel skipped [] {end} h inv =
      let e : skipped ≡ end = cc in
      subst (WalkResult skipped []) e
        (record { spreads = inv; keeps = λ id m. m; takes = λ id m. absurd cc })
  loop-Result zero skipped (id ∷ pending) h inv = cc
  loop-Result (suc fuel) skipped (id ∷ pending) {end} h inv =
      elim (Bool-cases (member id skipped || member id protected)) [
        | inl old ↦
            let rest =
              loop-Result fuel skipped pending (rw old at h)
                (dropped-Spreads id skipped pending old inv) in
            record {
              spreads = rest.spreads;
              keeps = rest.keeps;
              takes = λ x m.
                  taken_old id x skipped protected pending end old (rest.keeps id) (rest.takes x) m;
            }
        | inr new ↦ elim (Option-cases (find (λ s. s.step_id == id) plan.steps)) [
          | inl missing ↦ let bad = rw (new, plan_step-none plan id missing) at h in cc
          | inr (step, found) ↦
              let at = plan_step-some plan id found in
              let rest =
                loop-Result fuel (id ∷ skipped) (pending ++ route_targets step.outbound_routes)
                  (rw (new, at) at h)
                  (visited-Spreads id skipped pending step (or_false _ _ new).1 at inv) in
              record {
                spreads = rest.spreads;
                keeps = λ x m. rest.keeps x (ground arith);
                takes = λ x m. elim (Bool-cases (id == x)) [
                  | inl same ↦
                      let here : member x (id ∷ skipped) ≡ true = ground arith in
                      let there = rest.keeps x here in ground arith
                  | inr apart ↦
                      let queued = tail_member id x pending apart m in
                      rest.takes x (
                        ground
                          (arith, member-append x pending (route_targets step.outbound_routes)))
                ];
              }
        ]
      ]

  -- What `collectSkippedDescendants` returns holds every initial step that is not protected, no
  -- protected step, and with a step the targets of its routes that are not protected.
  pub collect_skipped-Spreads :
      (initial : List ℕ) {end : List ℕ}
      → collect_skipped plan protected initial ≡ ok end
      → Spreads [] end
        × ((id : ℕ) → member id initial ≡ true → (member id end || member id protected) ≡ true)
  unfolding collect_skipped
  collect_skipped-Spreads initial h =
      let found = loop-Result (length initial + route_count plan.steps) [] initial h (record {
        unprotected = λ id m. absurd cc;
        spread = λ id target step m found out. absurd cc;
      }) in
      (found.spreads, found.takes)
