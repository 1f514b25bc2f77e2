-- ===== src/Workflow.antt =====
-- Workflow graphs, their check and their compiler: packages/domain/src/workflow-policy.ts and
-- packages/domain/src/workflow-compiler.ts.
pub mod Graph
pub mod Validate
pub mod WellFormed
pub mod Plan
pub mod Publish
pub mod Publishable
pub mod Visited
pub mod Published
pub mod Compile
pub mod Compiled
