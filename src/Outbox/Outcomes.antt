-- ===== src/Outbox/Outcomes.antt =====
-- What a successful operation on the outbox found and wrote.
use byok_grid.Common.{
  ℕ, ◌≡◌, true, List, any, Text, map, ok, ◌>>=◌, >>=-eq-ok, >>-eq-ok, update_where, arith,
}
use byok_grid.Outbox.Events.{
  Event, EventType, ClaimRequest, assert_outbox_claim, requested_types, claim_due, claim_events,
  due_events, picks, claimed_event, complete_event, claimed_scope, published, retry_event, returned,
  safe_dispatch_error,
}

module _ {P : Type 0} where
  claim_due-ok :
      (events : List (Event P)) (input : ClaimRequest) (types : List EventType)
      {reports events' : List (Event P)}
      → claim_due events input types ≡ ok (reports, events')
      → (reports ≡ map (claimed_event input) (due_events input types events))
        × (events'
            ≡ update_where
                (picks input types (due_events input types events))
                (claimed_event input)
                events)
  unfolding claim_due
  claim_due-ok events input types h = ground arith

  pub claim_events-ok :
      (events : List (Event P)) (input : ClaimRequest) {reports events' : List (Event P)}
      → claim_events events input ≡ ok (reports, events')
      → (types : List EventType) × (reports
          ≡ map (claimed_event input) (due_events input types events))
        × (events'
            ≡ update_where
                (picks input types (due_events input types events))
                (claimed_event input)
                events)
  unfolding claim_events
  claim_events-ok events input h =
      let (_, rest) =
        >>-eq-ok (assert_outbox_claim input.claim_id)
          (requested_types input.event_types >>= claim_due events input) h in
      let (types, _, last) =
        >>=-eq-ok (requested_types input.event_types) (claim_due events input) rest in
      let (listed, table) = claim_due-ok events input types last in (types, listed, table)

  pub complete_event-ok :
      (events : List (Event P)) (claim : Text) (id now : ℕ) {events' : List (Event P)}
      → complete_event events claim id now ≡ ok events'
      → (any (claimed_scope claim id) events ≡ true)
        × (events' ≡ update_where (claimed_scope claim id) (published now) events)
  unfolding complete_event
  complete_event-ok events claim id now h = ground arith

  pub retry_event-ok :
      (events : List (Event P)) (claim message : Text) (id retry_at : ℕ) {events' : List (Event P)}
      → retry_event events claim message id retry_at ≡ ok events'
      → (any (claimed_scope claim id) events ≡ true)
        × (events'
            ≡ update_where
                (claimed_scope claim id)
                (returned (safe_dispatch_error message) retry_at)
                events)
  unfolding retry_event
  retry_event-ok events claim message id retry_at h = ground arith
