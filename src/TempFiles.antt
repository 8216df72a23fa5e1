-- ===== src/TempFiles.antt =====
-- src/temporary_file_metadata_manager.cpp: the temporary files, over the allocator of blocks.
pub mod Defs
pub mod Counts
pub mod Release
pub mod Balance
pub mod Consistent
pub mod Space
pub mod Locate
