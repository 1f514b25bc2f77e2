-- ===== src/Runs.antt =====
-- The ledger of workflow runs and their steps: packages/db/src/sqlite/workflow-runs.ts.
pub mod Ledger
pub mod Claim
pub mod Skip
pub mod Settle
pub mod Outcomes
pub mod Lifecycle
pub mod Skipped
pub mod Closure
pub mod Fencing
pub mod Ends
pub mod Leases
pub mod Create
pub mod Created
pub mod Execution
pub mod Executed
pub mod Trace
