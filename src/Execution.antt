-- ===== src/Execution.antt =====
-- The execution of tasks.
pub mod Pump
