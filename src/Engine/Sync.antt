-- ===== src/Engine/Sync.antt =====
-- NvmeSyncIOEngine: one command for a transfer, and a read before a write of parts of blocks.
pub mod Laws
use nvmefs.Prelude.{
  ℕ, suc, ◌+◌, ◌-◌, ◌*◌, ◌<◌, ◌≤◌, ◌≡◌, refl, Bool, true, false, ◌||◌, List, Option, some, none,
  if◌then◌else◌, ltb, ◌==◌, length, get_or, bytes_at, put_bytes, get_bytes, within, mul64, sub64,
  arith, Cmd, Run, ok, err, device_failure, null_dereference,
}
use nvmefs.Device.{DeviceGeometry, CmdContext, IsCommand}
use nvmefs.Device.Placement.{data_placement_mode}
use nvmefs.PathHandler.Defs.{StringUtil}
use nvmefs.Engine.Xnvme.{
  Xnvme, IsLawful, NvmeDevice, Engine, allocate_device_buffer, free_device_buffer, fresh_buffer,
  io_words,
}

module _ (x : Xnvme) (dev : NvmeDevice) (u : StringUtil) where
  unfoldable pub sync_read : CmdContext → Cmd (Engine x) (List ℕ)
  sync_read ctx s =
      let size = mul64 ctx.nr_lbas dev.geometry.lba_size in
      let (buffer, buffers) = allocate_device_buffer x dev size s.buffers in
      let done = record s { buffers = free_device_buffer x dev buffer size buffers } in
      if buffer == 0
      then err null_dereference (record s { buffers = buffers })
      else elim (x.nvm_read s.disk (io_words x dev u ctx 0 false) ctx.start_lba
          (sub64 ctx.nr_lbas 1)) [
            | none ↦ err device_failure done
            | some bs ↦ ok (get_bytes bs ctx.offset ctx.nr_bytes) done
          ]

  -- Whether a write leaves bytes of its blocks as they are.
  unfoldable pub is_partial : CmdContext → (size : ℕ) → Bool
  is_partial ctx size = ltb 0 ctx.offset || ltb ctx.nr_bytes size

  -- The buffer before the caller's bytes are copied into it: the old blocks, or what it held.
  unfoldable pub sync_fill : CmdContext → (size : ℕ) → (fresh : List ℕ) → x.Disk → Option (List ℕ)
  sync_fill ctx size fresh disk =
      if is_partial ctx size
      then x.nvm_read disk (sub64 ctx.nr_lbas 1, 0) ctx.start_lba (sub64 ctx.nr_lbas 1)
      else some fresh

  unfoldable pub sync_write : CmdContext → List ℕ → Cmd (Engine x) (Unit {0})
  sync_write ctx src s =
      let size = mul64 ctx.nr_lbas dev.geometry.lba_size in
      let (buffer, buffers) = allocate_device_buffer x dev size s.buffers in
      let done = record s { buffers = free_device_buffer x dev buffer size buffers } in
      if buffer == 0
      then err null_dereference (record s { buffers = buffers })
      else elim (sync_fill ctx size (fresh_buffer x dev size s.buffers) s.disk) [
        | none ↦ err device_failure done
        | some old ↦
            elim (x.nvm_write s.disk (io_words x dev u ctx data_placement_mode true) ctx.start_lba
              (sub64 ctx.nr_lbas 1) (put_bytes old ctx.offset src)) [
                | none ↦ err device_failure done
                | some disk ↦ ok tt (record done { disk = disk })
              ]
      ]
