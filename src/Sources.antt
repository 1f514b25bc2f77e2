-- ===== src/Sources.antt =====
-- Synced sources: packages/domain/src/source-policy.ts.
pub mod Schedule
pub mod Aligned
