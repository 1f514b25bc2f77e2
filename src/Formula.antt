-- ===== src/Formula.antt =====
-- Formula columns: packages/domain/src/formulas.ts and the cell values it works on.
pub mod Values
pub mod Syntax
pub mod Infer
pub mod Evaluate
pub mod Sound
pub mod Preserved
pub mod Finite
pub mod Frame
pub mod Limits
