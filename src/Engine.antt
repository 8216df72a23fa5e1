-- ===== src/Engine.antt =====
-- src/include/io_engines/: how the reads and writes of the device become NVMe commands.
pub mod Xnvme
pub mod Interface
pub mod Overwrite
pub mod Sync
pub mod Async
pub mod Prefetch
pub mod Select
