-- ===== src/Device.antt =====
-- src/include/device.hpp: the geometry of a device and the context of one command.
pub mod Placement
pub mod Handles
pub mod Buffers
use nvmefs.Prelude.{ℕ, ◌+◌, ◌*◌, ◌^◌, ◌≤◌, ◌<◌, arith, Str}

pub record DeviceGeometry : Type 0 where
  pub lba_size : ℕ
  pub lba_count : ℕ

-- NVMe blocks hold at least 512 bytes, and the capacity in bytes fits an idx_t.
pub record IsSane (geo : DeviceGeometry) : Type 0 where
  pub block_size : 512 ≤ geo.lba_size
  pub capacity : geo.lba_count * geo.lba_size ≤ 2 ^ 63

pub lba_count_bound : (geo : DeviceGeometry) → IsSane geo → geo.lba_count ≤ 2 ^ 54
lba_count_bound geo sane = grind arith

-- CmdContext with the path of NvmeCmdContext.
pub record CmdContext : Type 0 where
  pub nr_bytes : ℕ
  pub nr_lbas : ℕ
  pub start_lba : ℕ
  pub offset : ℕ
  pub filepath : Str

-- A command whose bytes lie in its blocks, of a number of blocks that fits the command's field.
pub record IsCommand (geo : DeviceGeometry) (ctx : CmdContext) : Type 0 where
  pub some_blocks : 0 < ctx.nr_lbas
  pub few_blocks : ctx.nr_lbas ≤ 2 ^ 16
  pub inside : ctx.offset + ctx.nr_bytes ≤ ctx.nr_lbas * geo.lba_size
  pub words : ctx.nr_lbas * geo.lba_size < 2 ^ 64
  pub last : ctx.start_lba + ctx.nr_lbas < 2 ^ 64
