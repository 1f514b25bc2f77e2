-- ===== src/Examples/Outbox.antt =====
-- An outbox of one event (packages/db/src/sqlite/outbox.ts).
use byok_grid.Common.{
  ◌≡◌, ◌≢◌, refl, none, some, [], ◌∷◌, codes, ok, update_where, text_eq, Pairwise,
}
use byok_grid.Outbox.Events.{
  Event, EventType, ClaimRequest, claim_events, claim_due, assert_event_types, assert_outbox_claim,
  due_events, order_events, insert_event, is_dispatchable, complete_event, retry_event,
}
use byok_grid.Outbox.Trace.{
  Keeps, claims_due, completes, start, then, History-Keeps, Guarded, claim_events-Guarded,
  complete_event-once,
}

abbrev event : Event Unit
event = record {
  id = 1;
  workspace_id = 7;
  aggregate_id = 5;
  aggregate_type = codes "workflow_run";
  event_type = EventType.workflow_run_requested;
  payload = tt;
  created_at = 10;
  published_at = none;
  dispatch_attempts = 0;
  dispatch_claim_id = none;
  dispatch_claimed_at = none;
  dispatch_last_error = none;
  dispatch_next_attempt_at = none;
}

abbrev request : ClaimRequest
request = record {
  claim_id = codes "worker";
  event_types = [];
  lease_seconds = none;
  limit = none;
  now = 1000;
}

abbrev held : Event Unit
held = record event {
  dispatch_attempts = 1;
  dispatch_claim_id = some (codes "worker");
  dispatch_claimed_at = some 1000;
}

abbrev sent : Event Unit
sent = record event { dispatch_attempts = 1; published_at = some 2000 }

claim_result : claim_events (event ∷ []) request ≡ ok (held ∷ [], held ∷ [])
unfolding claim_events claim_due assert_event_types assert_outbox_claim due_events order_events
    insert_event is_dispatchable update_where
claim_result = refl

complete_result : complete_event (held ∷ []) (codes "worker") 1 2000 ≡ ok (sent ∷ [])
unfolding complete_event assert_outbox_claim update_where text_eq
complete_result = refl

History-Keeps_example : Pairwise Keeps (event ∷ []) (sent ∷ [])
History-Keeps_example = History-Keeps (
    then (then start (claims_due request (held ∷ []) claim_result))
      (completes (codes "worker") 1 2000 complete_result))

abbrev rival : ClaimRequest
rival = record request { claim_id = codes "rival"; now = 2000 }

rival_result : claim_events (held ∷ []) rival ≡ ok ([], held ∷ [])
unfolding claim_events claim_due assert_event_types assert_outbox_claim due_events order_events
    insert_event is_dispatchable update_where
rival_result = refl

claim_events-Guarded_example :
    Pairwise (λ old new. Guarded rival old → new ≡ old) (held ∷ []) (held ∷ [])
claim_events-Guarded_example = claim_events-Guarded (held ∷ []) rival rival_result

complete_event-once_example :
    (complete_event (sent ∷ []) (codes "worker") 1 3000 ≢ ok (sent ∷ []))
    × (retry_event (sent ∷ []) (codes "worker") (codes "late") 1 3000 ≢ ok (sent ∷ []))
complete_event-once_example =
    complete_event-once (held ∷ []) (sent ∷ []) (sent ∷ []) (codes "worker") (codes "late") 1 2000
      3000 complete_result
