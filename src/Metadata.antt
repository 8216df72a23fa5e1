-- ===== src/Metadata.antt =====
-- The on-device layout of src/include/nvmefs.hpp and src/nvmefs.cpp: up to sixteen database
-- regions (data, then write-ahead log) behind the metadata block, and the temporary area at the end.
-- `databases` is the array in index order, always of sixteen entries.
pub mod Defs
pub mod Packed
pub mod Allocate
pub mod Initialize
pub mod Fresh
