-- ===== src/Recompute.antt =====
-- The recomputation of formula columns: packages/db/src/sqlite/formulas.ts.
pub mod Graph
pub mod Storage
pub mod Schema
pub mod Row
pub mod Reached
pub mod Ordered
pub mod Cells
pub mod Evaluated
pub mod Consistent
pub mod Returns
pub mod Access
pub mod Create
pub mod Extended
pub mod Created
pub mod Refuses
