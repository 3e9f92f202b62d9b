-- ===== src/Tasks.antt =====
-- What a client hands over for a new turn: src/domain/instructions.ts, task-input.ts and task-resume.ts.
pub mod Instructions
pub mod Input
pub mod Continue
