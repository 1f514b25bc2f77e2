-- ===== src/Outbox/Events.antt =====
-- The operations on the outbox (packages/db/src/sqlite/outbox.ts). Times are milliseconds.
use Prim.Native.Nat.{min, max}
use byok_grid.Common.{
  ℕ, ◌+◌, ◌-◌, ◌*◌, Bool, true, false, not, ◌&&◌, ◌||◌, Option, none, some, List, [], ◌∷◌, ◌==◌,
  ltb, leb, any, keep, take, length, if◌then◌else◌, Text, text_eq, is_control, Result, ok, ◌>>=◌,
  ◌>>◌, require, update_where, map,
}

-- The types that are dispatched, and any other.
pub data EventType : Type 0 where
  cell_run_requested : EventType
  bulk_run_requested : EventType
  csv_import_requested : EventType
  ingestion_batch_requested : EventType
  row_settled : EventType
  source_run_requested : EventType
  webhook_delivery_requested : EventType
  writeback_delivery_requested : EventType
  workflow_run_requested : EventType
  other : Text → EventType

abbrev pub dispatchable : List EventType
dispatchable =
    cell_run_requested ∷ bulk_run_requested ∷ csv_import_requested ∷ ingestion_batch_requested
    ∷ row_settled ∷ source_run_requested ∷ webhook_delivery_requested ∷ writeback_delivery_requested
    ∷ workflow_run_requested ∷ []

abbrev pub same_event_type : EventType → EventType → Bool
same_event_type cell_run_requested cell_run_requested = true
same_event_type bulk_run_requested bulk_run_requested = true
same_event_type csv_import_requested csv_import_requested = true
same_event_type ingestion_batch_requested ingestion_batch_requested = true
same_event_type row_settled row_settled = true
same_event_type source_run_requested source_run_requested = true
same_event_type webhook_delivery_requested webhook_delivery_requested = true
same_event_type writeback_delivery_requested writeback_delivery_requested = true
same_event_type workflow_run_requested workflow_run_requested = true
same_event_type (other s) (other t) = text_eq s t
same_event_type _ _ = false

-- `outbox_events`; `P` is the type of payloads.
pub record Event (P : Type 0) : Type 0 where
  pub id : ℕ
  pub workspace_id : ℕ
  pub aggregate_id : ℕ
  pub aggregate_type : Text
  pub event_type : EventType
  pub payload : P
  pub created_at : ℕ
  pub published_at : Option ℕ
  pub dispatch_attempts : ℕ
  pub dispatch_claim_id : Option Text
  pub dispatch_claimed_at : Option ℕ
  pub dispatch_last_error : Option Text
  pub dispatch_next_attempt_at : Option ℕ

pub data OutboxError : Type 0 where
  invalid_claim_id : OutboxError
  claim_conflict : OutboxError
  lease_expired : OutboxError
  not_dispatchable : OutboxError

pub record ClaimRequest : Type 0 where
  pub claim_id : Text
  pub event_types : List EventType
  pub lease_seconds : Option ℕ
  pub limit : Option ℕ
  pub now : ℕ

abbrev or_default : Option ℕ → ℕ → ℕ
or_default none d = d
or_default (some n) d = n

abbrev pub event_limit : ClaimRequest → ℕ
event_limit input = max 1 (min (or_default input.limit 10) 100)

abbrev pub lapsed_before : ClaimRequest → ℕ
lapsed_before input = input.now - max 30 (min (or_default input.lease_seconds 300) 3600) * 1000

abbrev is_none : {A : Type 0} → Option A → Bool
is_none none = true
is_none (some _) = false

-- A column compared with a time: NULL passes neither test.
abbrev pub not_after : Option ℕ → ℕ → Bool
not_after none t = false
not_after (some s) t = leb s t

abbrev pub earlier : Option ℕ → ℕ → Bool
earlier none t = false
earlier (some s) t = ltb s t

abbrev pub holds_claim : Option Text → Text → Bool
holds_claim none claim = false
holds_claim (some c) claim = text_eq c claim

unfoldable pub assert_outbox_claim : Text → Result OutboxError (Unit {0})
assert_outbox_claim claim =
    require (leb 1 (length claim) && (leb (length claim) 200 && not (any is_control claim)))
      invalid_claim_id

abbrev pub has_type : EventType → List EventType → Bool
has_type t ts = any (λ u. same_event_type u t) ts

-- `assertDispatchableEventType`, of each item
unfoldable pub assert_event_types : List EventType → Result OutboxError (List EventType)
assert_event_types [] = ok []
assert_event_types (t ∷ ts) = do
  require (has_type t dispatchable) not_dispatchable
  checked ← assert_event_types ts
  ok (t ∷ checked)

abbrev pub requested_types : List EventType → Result OutboxError (List EventType)
requested_types [] = ok dispatchable
requested_types (t ∷ ts) = assert_event_types (t ∷ ts)

module _ {P : Type 0} where
  -- `dispatchEligibility`
  unfoldable pub is_dispatchable : ClaimRequest → List EventType → Event P → Bool
  is_dispatchable input types e =
      has_type e.event_type types
      && (is_none e.published_at
          && ((is_none e.dispatch_next_attempt_at || not_after e.dispatch_next_attempt_at input.now)
              && (is_none e.dispatch_claim_id
                  || earlier e.dispatch_claimed_at (lapsed_before input))))

  -- `orderBy(asc(createdAt), asc(id))`
  abbrev pub precedes : Event P → Event P → Bool
  precedes a b = ltb a.created_at b.created_at || (a.created_at == b.created_at && leb a.id b.id)

  unfoldable pub insert_event : Event P → List (Event P) → List (Event P)
  insert_event e [] = e ∷ []
  insert_event e (f ∷ fs) =
      let rest = insert_event e fs in if precedes e f then e ∷ f ∷ fs else f ∷ rest

  unfoldable pub order_events : List (Event P) → List (Event P)
  unfolding insert_event
  order_events [] = []
  order_events (e ∷ es) = insert_event e (order_events es)

  unfoldable pub due_events : ClaimRequest → List EventType → List (Event P) → List (Event P)
  unfolding is_dispatchable order_events
  due_events input types events =
      take (event_limit input) (order_events (keep (is_dispatchable input types) events))

  abbrev pub picks : ClaimRequest → List EventType → List (Event P) → Event P → Bool
  picks input types due e = any (λ d. d.id == e.id) due && is_dispatchable input types e

  abbrev pub claimed_event : ClaimRequest → Event P → Event P
  claimed_event input e = record e {
    dispatch_attempts = e.dispatch_attempts + 1;
    dispatch_claimed_at = some input.now;
    dispatch_claim_id = some input.claim_id;
    dispatch_last_error = none;
    dispatch_next_attempt_at = none;
  }

  -- The transaction of `claimSqliteOutboxEvents`: the claimed events, in order, and the table.
  unfoldable pub claim_due :
      List (Event P)
      → ClaimRequest
      → List EventType
      → Result OutboxError (List (Event P) × List (Event P))
  claim_due events input types = do
    let due = due_events input types events
    require (length (keep (picks input types due) events) == length due) claim_conflict
    checked ← assert_event_types (map (λ e. e.event_type) due)
    ok (
      map (claimed_event input) due,
      update_where (picks input types due) (claimed_event input) events,
    )

  unfoldable pub claim_events :
      List (Event P) → ClaimRequest → Result OutboxError (List (Event P) × List (Event P))
  claim_events events input = do
    assert_outbox_claim input.claim_id
    types ← requested_types input.event_types
    claim_due events input types

  -- The unpublished event with the id, under the claim.
  abbrev pub claimed_scope : Text → ℕ → Event P → Bool
  claimed_scope claim id e =
      e.id == id && (holds_claim e.dispatch_claim_id claim && is_none e.published_at)

  abbrev pub published : ℕ → Event P → Event P
  published now e = record e {
    dispatch_claimed_at = none;
    dispatch_claim_id = none;
    dispatch_last_error = none;
    dispatch_next_attempt_at = none;
    published_at = some now;
  }

  unfoldable pub complete_event :
      List (Event P) → Text → ℕ → ℕ → Result OutboxError (List (Event P))
  complete_event events claim id now = do
    assert_outbox_claim claim
    require (any (claimed_scope claim id) events) lease_expired
    ok (update_where (claimed_scope claim id) (published now) events)

  abbrev pub returned : Text → ℕ → Event P → Event P
  returned message retry_at e = record e {
    dispatch_claimed_at = none;
    dispatch_claim_id = none;
    dispatch_last_error = some message;
    dispatch_next_attempt_at = some retry_at;
  }

-- `safeDispatchError`
unfoldable pub safe_dispatch_error : Text → Text
safe_dispatch_error message =
    take 500 (map (λ c. if c == 13 || (c == 10 || c == 9) then 32 else c) message)

unfoldable pub retry_event :
    {P : Type 0} → List (Event P) → Text → Text → ℕ → ℕ → Result OutboxError (List (Event P))
unfolding safe_dispatch_error
retry_event events claim error_message id retry_at = do
  assert_outbox_claim claim
  require (any (claimed_scope claim id) events) lease_expired
  ok (
      update_where (claimed_scope claim id) (returned (safe_dispatch_error error_message) retry_at)
        events)
