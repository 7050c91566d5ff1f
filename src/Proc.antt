-- ===== src/Proc.antt =====
-- Threads and who runs: what is under proc.
pub mod Scheduler
