-- ===== src/Process.antt =====
-- The processes that a task starts: how their tree is observed, and who owns them.
pub mod Observation
pub mod Ownership
