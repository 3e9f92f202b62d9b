-- ===== src/Provider.antt =====
-- What the runner reads from the output of the provider's command line programs.
pub mod Output
