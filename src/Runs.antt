-- ===== src/Runs.antt =====
-- The run manager of internal/runs.
pub mod Cooldown
pub mod Manager
