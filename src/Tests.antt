-- ===== src/Tests.antt =====
-- Small inputs: runs of the definitions, and the theorems at inputs that meet their hypotheses.
mod Layout
mod Blocks
mod Paths
mod Files
mod Spill
mod Handles
mod Disk
mod Namespace
mod Settings
