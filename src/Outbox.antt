-- ===== src/Outbox.antt =====
-- The outbox of events: packages/db/src/sqlite/outbox.ts.
pub mod Events
pub mod Outcomes
pub mod Trace
