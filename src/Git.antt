-- ===== src/Git.antt =====
-- The leases of Git work and of turns (src/application/git-coordination.ts).
pub mod Gate
pub mod Keyed
pub mod Coordination
