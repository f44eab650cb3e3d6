-- ===== src/BufferPool.antt =====
-- src/observer/storage/buffer: pages of files in memory.
pub mod FrameManager
pub mod Flush
