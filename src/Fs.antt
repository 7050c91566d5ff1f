-- ===== src/Fs.antt =====
-- The file system: what is under fs.
pub mod Path
