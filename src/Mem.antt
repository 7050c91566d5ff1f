-- ===== src/Mem.antt =====
-- The kernel's memory parts: mem/ and include/aex/mem/.
pub mod CircularBuffer
pub mod Bitmap
pub mod FramePiece
pub mod Phys
pub mod Paging
pub mod Heap
