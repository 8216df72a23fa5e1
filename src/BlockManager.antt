-- ===== src/BlockManager.antt =====
-- src/nvmefs_temporary_block_manager.cpp: the allocator of the temporary area.
pub mod Defs
pub mod Counts
pub mod Lists
pub mod Coalesce
pub mod Cover
pub mod Invariant
pub mod Frame
pub mod Allocate
pub mod Free
pub mod Units
pub mod Space
pub mod Calls
pub mod Used
