-- ===== src/PathHandler.antt =====
-- src/include/nvmefs_path_handler.hpp: what a path says about a file.
pub mod Defs
pub mod Names
pub mod Types
