-- ===== src/Strategy.antt =====
-- src/include/strategies/: how the files of one type are laid on the device.
pub mod Defs
pub mod Range
pub mod Location
pub mod Writers
pub mod Temporary
