-- ===== src/Workflow/WellFormed.antt =====
-- What a workflow graph must be, said without the loops that check it.
pub mod Connects
pub mod Scans
pub mod Cycles
pub mod Valid
