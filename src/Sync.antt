-- ===== src/Sync.antt =====
-- The locks that threads wait for each other with.
pub mod Mutex
pub mod RwMutex
