-- ===== src/FileSystem.antt =====
-- NvmeFileSystem and NvmeFileHandle (src/nvmefs.cpp, src/include/nvmefs.hpp).
pub mod State
pub mod Strategies
pub mod Metadata
pub mod Open
pub mod Handles
pub mod Transfer
pub mod Directory
pub mod Blocks
pub mod Parts
pub mod Files
pub mod Isolation
pub mod Restart
