-- ===== src/Outbox/Trace.antt =====
-- Sequences of operations on the outbox, by any dispatchers, in any order.
use byok_grid.Common.{
  ℕ, ◌≤◌, ◌≡◌, ◌≢◌, refl, ◌∙◌, sym, ap, true, false, none, some, List, any, Text, ok,
  update_where-clears, arith, Pairwise, Pairwise-refl, Pairwise-trans, update_where-Pairwise,
}
use byok_grid.Outbox.Events.{
  Event, EventType, ClaimRequest, claim_events, due_events, picks, claimed_event, complete_event,
  claimed_scope, published, retry_event, returned, safe_dispatch_error, is_dispatchable,
  lapsed_before,
}
use byok_grid.Outbox.Outcomes.{claim_events-ok, complete_event-ok, retry_event-ok}

module _ {P : Type 0} where
  -- What the operations may do to an event: it keeps its identity, its attempts never go down, and
  -- once it is published it stays as it is.
  pub record Keeps (old new : Event P) : Type 0 where
    pub same_id : new.id ≡ old.id
    pub same_type : new.event_type ≡ old.event_type
    pub same_payload : new.payload ≡ old.payload
    pub attempts : old.dispatch_attempts ≤ new.dispatch_attempts
    pub final : old.published_at ≢ none → new ≡ old

  Keeps-refl : (e : Event P) → Keeps e e
  Keeps-refl e = record {
    same_id = refl;
    same_type = refl;
    same_payload = refl;
    attempts = omega arith;
    final = λ _. refl;
  }

  Keeps-trans : (a b c : Event P) → Keeps a b → Keeps b c → Keeps a c
  Keeps-trans a b c p q = record {
    same_id = q.same_id ∙ p.same_id;
    same_type = q.same_type ∙ p.same_type;
    same_payload = q.same_payload ∙ p.same_payload;
    attempts = omega (arith, p.attempts, q.attempts);
    final = λ done.
        q.final (λ e. done (ap (λ x. x.published_at) (sym (p.final done)) ∙ e)) ∙ p.final done;
  }

  picks-unpublished :
      (input : ClaimRequest) (types : List EventType) (due : List (Event P)) (e : Event P)
      → picks input types due e ≡ true
      → e.published_at ≡ none
  unfolding is_dispatchable
  picks-unpublished input types due e h = ground arith

  scope-unpublished :
      (claim : Text) (id : ℕ) (e : Event P)
      → claimed_scope claim id e ≡ true
      → e.published_at ≡ none
  scope-unpublished claim id e h = ground arith

  -- One successful operation.
  pub data Operation (events events' : List (Event P)) : Type 0 where
    claims_due :
        (input : ClaimRequest) (reports : List (Event P))
        → claim_events events input ≡ ok (reports, events')
        → Operation events events'
    completes :
        (claim : Text) (id now : ℕ)
        → complete_event events claim id now ≡ ok events'
        → Operation events events'
    retries :
        (claim message : Text) (id retry_at : ℕ)
        → retry_event events claim message id retry_at ≡ ok events'
        → Operation events events'

  pub data History (events : List (Event P)) : List (Event P) → Type 0 where
    start : History events events
    then :
        {events' events'' : List (Event P)}
        → History events events'
        → Operation events' events''
        → History events events''

  Operation-Keeps :
      {events events' : List (Event P)} → Operation events events' → Pairwise Keeps events events'
  Operation-Keeps {events} (claims_due input reports h) =
      let (types, _, table) = claim_events-ok events input h in
      rw table (
        update_where-Pairwise Keeps (picks input types (due_events input types events))
          (claimed_event input)
          (λ e t. record {
            same_id = refl;
            same_type = refl;
            same_payload = refl;
            attempts = omega arith;
            final = λ done.
                absurd (done (picks-unpublished input types (due_events input types events) e t));
          })
          (λ e t. Keeps-refl e) events)
  Operation-Keeps {events} (completes claim id now h) =
      let (_, table) = complete_event-ok events claim id now h in
      rw table (
        update_where-Pairwise Keeps (claimed_scope claim id) (published now)
          (λ e t. record {
            same_id = refl;
            same_type = refl;
            same_payload = refl;
            attempts = omega arith;
            final = λ done. absurd (done (scope-unpublished claim id e t));
          })
          (λ e t. Keeps-refl e) events)
  Operation-Keeps {events} (retries claim message id retry_at h) =
      let (_, table) = retry_event-ok events claim message id retry_at h in
      rw table (
        update_where-Pairwise Keeps (claimed_scope claim id)
          (returned (safe_dispatch_error message) retry_at)
          (λ e t. record {
            same_id = refl;
            same_type = refl;
            same_payload = refl;
            attempts = omega arith;
            final = λ done. absurd (done (scope-unpublished claim id e t));
          })
          (λ e t. Keeps-refl e) events)

  -- After any sequence of successful claims, completions and retries the outbox holds the same
  -- events, each with its id, type and payload, none with fewer attempts, and every event that was
  -- published is as it was.
  pub History-Keeps :
      {events events' : List (Event P)} → History events events' → Pairwise Keeps events events'
  History-Keeps {events} start = Pairwise-refl Keeps Keeps-refl events
  History-Keeps {events} (then {events'} {events''} past last) =
      Pairwise-trans Keeps Keeps-trans events events' events'' (History-Keeps past)
        (Operation-Keeps last)

  -- The event is claimed, and the claim has not lapsed for the claiming dispatcher.
  abbrev pub Guarded : ClaimRequest → Event P → Type 0
  Guarded input e =
      (e.dispatch_claim_id ≢ none)
      × ((t : ℕ) × (e.dispatch_claimed_at ≡ some t) × (lapsed_before input ≤ t))

  Guarded-skipped :
      (input : ClaimRequest) (types : List EventType) (due : List (Event P)) (e : Event P)
      → Guarded input e
      → picks input types due e ≢ true
  unfolding is_dispatchable
  Guarded-skipped input types due e guard =
      λ picked. let (held, lease) = guard in let (t, at, fresh) = lease in ground arith

  -- A claim leaves every event as it is whose own claim has not lapsed.
  pub claim_events-Guarded :
      (events : List (Event P)) (input : ClaimRequest) {reports events' : List (Event P)}
      → claim_events events input ≡ ok (reports, events')
      → Pairwise (λ old new. Guarded input old → new ≡ old) events events'
  claim_events-Guarded events input h =
      let (types, _, table) = claim_events-ok events input h in
      rw table (
        update_where-Pairwise (λ old new. Guarded input old → new ≡ old)
          (picks input types (due_events input types events)) (claimed_event input)
          (λ e t guard.
            absurd (Guarded-skipped input types (due_events input types events) e guard t))
          (λ e t guard. refl) events)

  -- Once an event is published under a claim, the same claim can neither publish nor retry it again.
  pub complete_event-once :
      (events events' events'' : List (Event P)) (claim message : Text) (id now later : ℕ)
      → complete_event events claim id now ≡ ok events'
      → (complete_event events' claim id later ≢ ok events'')
        × (retry_event events' claim message id later ≢ ok events'')
  complete_event-once events events' events'' claim message id now later h =
      let (_, table) = complete_event-ok events claim id now h in
      let spent : any (claimed_scope claim id) events' ≡ false = rw table (
        update_where-clears (claimed_scope claim id) (published now) (claimed_scope claim id)
          (λ e t. ground arith) (λ e t. t) events) in
      (
        (λ again. let (held, _) = complete_event-ok events' claim id later again in cc),
        λ again. let (held, _) = retry_event-ok events' claim message id later again in cc,
      )
