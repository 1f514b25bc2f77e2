-- ===== src/Toposort.antt =====
-- The loop that orders a graph, in packages/domain/src/workflow-policy.ts and
-- packages/domain/src/workflow-compiler.ts, with what the two do differently as parameters.
pub mod Loop
pub mod Counts
pub mod Edges
pub mod Invariant
pub mod Order
