-- ===== src/Examples.antt =====
-- Runs of the program on small inputs.
mod Formula
mod Language
mod Workflow
mod Runs
mod Outbox
mod Recompute
mod Created
mod Sources
