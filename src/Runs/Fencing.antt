-- ===== src/Runs/Fencing.antt =====
-- How often a step may be ended under one claim.
use byok_grid.Common.{
  ℕ, ◌≡◌, true, false, Option, List, any, Text, ok, update_where, update_where-clears,
  update_where-adds_none, arith,
}
use byok_grid.Runs.Ledger.{RunStatus, Ledger, open_scope}
use byok_grid.Runs.Settle.{
  Scope, Json, complete_step, retry_step, fail_step, mine, completed, retried, failed_step,
  cancelled_step, activate, skip, activated, skipped_row, blocked_scope,
}
use byok_grid.Runs.Outcomes.{complete_step-ok, retry_step-ok, fail_step-ok, active_targets}

-- The three ends of a claimed step, with what each is given.
pub data Finish (Value : Type 0) : Type 0 where
  complete : List Text → Option Value → ℕ → Finish Value
  retry : Text → Text → ℕ → ℕ → Finish Value
  fail : Text → Text → ℕ → Finish Value

module _ {C : Type 0} (js : Json) where
  -- An end of the step of a scope takes one state of the tables to another.
  abbrev pub Finishes : Ledger C js.Value → Scope → Finish js.Value → Ledger C js.Value → Type 0
  Finishes db at (complete active output now) db' =
      (status : RunStatus) × (complete_step js db at active output now ≡ ok (status, db'))
  Finishes db at (retry code message retry_at now) db' =
      retry_step db at code message retry_at now ≡ ok db'
  Finishes db at (fail code message now) db' = fail_step db at code message now ≡ ok db'

  Finishes-mine :
      (db : Ledger C js.Value) (at : Scope) (f : Finish js.Value) (db' : Ledger C js.Value)
      → Finishes db at f db'
      → any (mine at) db.steps ≡ true
  Finishes-mine db at (complete active output now) db' (status, h) =
      let (_, _, _, _, _, _, held, _, _, _) = complete_step-ok js db at active output now h in held
  Finishes-mine db at (retry code message retry_at now) db' h =
      let (_, _, _, _, held, _) = retry_step-ok db at code message retry_at now h in held
  Finishes-mine db at (fail code message now) db' h =
      let (_, _, _, _, held, _, _) = fail_step-ok db at code message now h in held

  Finishes-spent :
      (db : Ledger C js.Value) (at : Scope) (f : Finish js.Value) (db' : Ledger C js.Value)
      → Finishes db at f db'
      → any (mine at) db'.steps ≡ false
  unfolding activate skip
  Finishes-spent db at (complete active output now) db' (status, h) =
      let (stored, _, step, dropped, _, _, _, steps, _, _) =
        complete_step-ok js db at active output now h in
      let done =
        update_where-clears (mine at) (completed js stored now) (mine at) (λ s t. ground arith)
          (λ s t. t) db.steps in
      let opened =
        update_where-adds_none
          (blocked_scope at.run_id at.workspace_id (active_targets active step)) (activated now)
          (mine at) (λ s t n. ground arith)
          (update_where (mine at) (completed js stored now) db.steps) done in
      rw steps (
        update_where-adds_none (blocked_scope at.run_id at.workspace_id dropped) (skipped_row now)
          (mine at) (λ s t n. ground arith)
          (activate at now (active_targets active step)
            (update_where (mine at) (completed js stored now) db.steps))
          opened)
  Finishes-spent db at (retry code message retry_at now) db' h =
      let (code', message', _, _, _, steps) = retry_step-ok db at code message retry_at now h in
      rw steps (
        update_where-clears (mine at) (retried code' message' retry_at now) (mine at)
          (λ s t. ground arith) (λ s t. t) db.steps)
  Finishes-spent db at (fail code message now) db' h =
      let (code', message', _, _, _, steps, _) = fail_step-ok db at code message now h in
      rw steps (
        update_where-adds_none (open_scope at.run_id at.workspace_id) (cancelled_step now) (mine at)
          (λ s t n. ground arith) (update_where (mine at) (failed_step code' message' now) db.steps)
          (update_where-clears (mine at) (failed_step code' message' now) (mine at)
            (λ s t. ground arith) (λ s t. t) db.steps))

  -- Once a step has been completed, returned for a retry or failed under a claim, the same claim
  -- can neither complete, retry nor fail it again in the state that this leaves.
  pub Finishes-once :
      (db db' db'' : Ledger C js.Value) (at : Scope) (first second : Finish js.Value)
      → Finishes db at first db'
      → ¬ Finishes db' at second db''
  Finishes-once db db' db'' at first second h again =
      cc (Finishes-spent db at first db' h, Finishes-mine db' at second db'' again)
