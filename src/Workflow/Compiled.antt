-- ===== src/Workflow/Compiled.antt =====
-- What the compiler of workflow graphs returns.
pub mod Sets
pub mod Order
pub mod Total
