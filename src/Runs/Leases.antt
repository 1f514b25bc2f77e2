-- ===== src/Runs/Leases.antt =====
-- What a claim does to steps under the lease of another.
use byok_grid.Common.{
  update_where-Pairwise, true, Pairwise, ℕ, ◌≤◌, ◌≡◌, refl, ap, ◌∙◌, Bool, false, ◌&&◌, ◌||◌, some,
  List, ok, arith, ltb,
}
use byok_grid.Runs.Ledger.{StepStatus, StepRun, Run, Ledger, same_status, before}
use byok_grid.Runs.Claim.{
  ClaimInput, ClaimedStep, claim_steps, claims, claimed, candidates, is_eligible, stale_before,
}
use byok_grid.Runs.Outcomes.{claim_steps-ok}

-- The row runs under a claim that is not stale for the claiming worker.
abbrev pub Leased : {J : Type 0} → ClaimInput → StepRun J → Type 0
Leased input s =
    (s.status ≡ StepStatus.running) × ((t : ℕ) × (s.claimed_at ≡ some t) × (stale_before input ≤ t))

and_false : (a b : Bool) → b ≡ false → (a && b) ≡ false
and_false a b h = ground arith

apart : (b : Bool) → b ≡ true → b ≡ false → ⊥
apart b h k = cc

not_before : (a b : ℕ) → b ≤ a → ltb a b ≡ false
not_before a b h = ground arith

ineligible :
    (a b c d e f g : Bool)
    → c ≡ false
    → e ≡ false
    → (a && (b && (((c && d) || (f && e)) && g))) ≡ false
ineligible a b c d e f g h k = ground arith

module _ {J : Type 0} where
  Leased-Ineligible :
      (runs : List (Run J)) (input : ClaimInput) (s : StepRun J)
      → Leased input s
      → is_eligible runs input s ≡ false
  unfolding is_eligible
  Leased-Ineligible runs input s (running, lease) =
      let (t, at, fresh) = lease in
      let late : ltb t (stale_before input) ≡ false = not_before t (stale_before input) fresh in
      let early : before s.claimed_at (stale_before input) ≡ false =
        ap (λ c. before c (stale_before input)) at ∙ late in
      ineligible _ _ _ _ _ _ _ (ap (λ r. same_status r StepStatus.ready) running) early

  Leased-Unclaimed :
      (runs : List (Run J)) (input : ClaimInput) (picked : List (StepRun J)) (s : StepRun J)
      → Leased input s
      → claims runs input picked s ≡ false
  Leased-Unclaimed runs input picked s lease = and_false _ _ (Leased-Ineligible runs input s lease)

-- A claim leaves every row as it is that runs under a lease which has not lapsed by its own
-- measure.
pub claim_steps-Leased :
    {C J : Type 0} (db : Ledger C J) (input : ClaimInput) {reports : List ClaimedStep}
    {db' : Ledger C J}
    → claim_steps db input ≡ ok (reports, db')
    → Pairwise (λ old new. Leased input old → new ≡ old) db.steps db'.steps
claim_steps-Leased db input h =
    let (_, steps, _) = claim_steps-ok db input h in
    let picked = candidates db.runs input db.steps in
    rw steps (
      update_where-Pairwise (λ old new. Leased input old → new ≡ old) (claims db.runs input picked)
        (claimed input)
        (λ s taken lease. absurd (
          apart (claims db.runs input picked s) taken
            (Leased-Unclaimed db.runs input picked s lease)))
        (λ s free lease. refl) db.steps)
