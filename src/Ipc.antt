-- ===== src/Ipc.antt =====
-- Communication between threads: what is under ipc.
pub mod Event
pub mod MessageQueue
