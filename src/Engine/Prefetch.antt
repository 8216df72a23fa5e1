-- ===== src/Engine/Prefetch.antt =====
-- NvmeAsynPrefetchIOEngine: one command for a transfer, and after a read a command for the same number
-- of blocks behind it, whose completion the next call of the thread waits for. A command that is
-- taken is executed at once here, and one that the device fails leaves its buffer as it was.
pub mod Fresh
pub mod Reading
pub mod Laws
use nvmefs.Prelude.{
  ℕ, true, false, ◌&&◌, List, Option, some, none, if◌then◌else◌, ◌==◌, get_or, set, put_bytes,
  get_bytes, mul64, add64, sub64, Cmd, ok, err, device_failure, queue_failure, null_dereference,
}
use nvmefs.Device.{CmdContext}
use nvmefs.Device.Placement.{data_placement_mode}
use nvmefs.Engine.Async.{open_queue}
use nvmefs.Engine.Sync.{is_partial}
use nvmefs.Engine.Xnvme.{
  Xnvme, Chunk, NvmeDevice, Engine, PrefetchState, no_prefetch, allocate_device_buffer,
  free_device_buffer, fresh_buffer, io_words,
}
use nvmefs.PathHandler.Defs.{StringUtil}

-- The blocks of a command, as a queue takes them.
abbrev pub one_chunk : CmdContext → Chunk
one_chunk ctx = record { slba = ctx.start_lba; count = ctx.nr_lbas; buf_offset = 0 }

-- The command of the blocks behind those of a read.
abbrev pub next_command : CmdContext → CmdContext
next_command ctx = record ctx { start_lba = add64 ctx.start_lba ctx.nr_lbas }

module _ (x : Xnvme) (dev : NvmeDevice) (u : StringUtil) (thread : ℕ) where
  -- What a buffer holds after a read command.
  unfoldable pub executed_read : x.Disk → CmdContext → List ℕ → List ℕ
  executed_read d ctx fresh =
      elim (x.nvm_read d (io_words x dev u ctx 0 false) ctx.start_lba (sub64 ctx.nr_lbas 1)) [
        | none ↦ fresh
        | some bs ↦ bs
      ]

  abbrev pub prefetch_of : Engine x → PrefetchState
  prefetch_of s = get_or s.prefetches thread no_prefetch

  -- The thread's prefetch has completed and is given up: its buffer is freed.
  unfoldable pub drain_prefetch : Engine x → Engine x
  drain_prefetch s =
      let p = prefetch_of s in
      if p.active
      then record s {
        buffers = free_device_buffer x dev p.buffer p.alloc_size s.buffers;
        prefetches = set s.prefetches thread (record p { active = false });
      }
      else s

  -- The bytes that a read finds in the prefetched buffer.
  unfoldable pub prefetched : CmdContext → Engine x → Option (List ℕ)
  prefetched ctx s =
      let p = prefetch_of s in
      if p.active && ((ctx.start_lba == p.expected_lba) && (ctx.nr_lbas == p.expected_nr_lbas))
      then some (get_bytes p.content ctx.offset ctx.nr_bytes)
      else none

  -- A read that finds nothing.
  unfoldable pub read_now : CmdContext → (size : ℕ) → Cmd (Engine x) (List ℕ)
  read_now ctx size s =
      let fresh = fresh_buffer x dev size s.buffers in
      let (buffer, buffers) = allocate_device_buffer x dev size s.buffers in
      let freed = record s { buffers = free_device_buffer x dev buffer size buffers } in
      if buffer == 0
      then err null_dereference (record s { buffers = buffers })
      else if x.accepts s.disk (one_chunk ctx)
      then ok (get_bytes (executed_read s.disk ctx fresh) ctx.offset ctx.nr_bytes) freed
      else err device_failure freed

  -- The command for the blocks behind a read.
  unfoldable pub prefetch_next : CmdContext → (size : ℕ) → Engine x → Engine x
  prefetch_next ctx size s =
      let fresh = fresh_buffer x dev size s.buffers in
      let (buffer, buffers) = allocate_device_buffer x dev size s.buffers in
      let next = next_command ctx in
      let state : PrefetchState = record {
        active = true;
        expected_lba = next.start_lba;
        expected_nr_lbas = ctx.nr_lbas;
        alloc_size = size;
        buffer = buffer;
        content = executed_read s.disk next fresh;
      } in
      if x.accepts s.disk (one_chunk next)
      then record s { buffers = buffers; prefetches = set s.prefetches thread state }
      else record s {
        buffers = free_device_buffer x dev buffer size buffers;
        prefetches = set s.prefetches thread (record state { active = false });
      }

  unfoldable pub prefetch_read : CmdContext → Cmd (Engine x) (List ℕ)
  prefetch_read ctx s =
      let size = mul64 ctx.nr_lbas dev.geometry.lba_size in
      let (buffer, buffers) = allocate_device_buffer x dev size s.buffers in
      elim (open_queue x dev u thread s.queues) [
        | none ↦
            err queue_failure (record s { buffers = free_device_buffer x dev buffer size buffers })
        | some queues ↦
            let ready = record s { queues = queues } in
            elim (prefetched ctx ready) [
              | some bs ↦
                  if (prefetch_of ready).buffer == 0
                  then err null_dereference ready
                  else ok bs (prefetch_next ctx size (drain_prefetch ready))
              | none ↦ elim (read_now ctx size (drain_prefetch ready)) [
                | ok bs t ↦ ok bs (prefetch_next ctx size t)
                | err e t ↦ err e t
              ]
            ]
      ]

  -- The buffer of a write before the bytes are copied into it: read first if parts of blocks are written.
  unfoldable pub prefetch_fill : CmdContext → (size : ℕ) → List ℕ → x.Disk → Option (List ℕ)
  prefetch_fill ctx size fresh d =
      if is_partial x dev u ctx size
      then x.nvm_read d (sub64 ctx.nr_lbas 1, 0) ctx.start_lba (sub64 ctx.nr_lbas 1)
      else some fresh

  unfoldable pub prefetch_write : CmdContext → List ℕ → Cmd (Engine x) (Unit {0})
  prefetch_write ctx src s =
      let size = mul64 ctx.nr_lbas dev.geometry.lba_size in
      let fresh = fresh_buffer x dev size s.buffers in
      let (buffer, buffers) = allocate_device_buffer x dev size s.buffers in
      let free : Engine x → Engine x =
        λ t. record t { buffers = free_device_buffer x dev buffer size t.buffers } in
      let allocated = record s { buffers = buffers } in
      elim (open_queue x dev u thread s.queues) [
        | none ↦ err queue_failure (free allocated)
        | some queues ↦
            let drained = drain_prefetch (record allocated { queues = queues }) in
            elim (prefetch_fill ctx size fresh drained.disk) [
              | none ↦ err device_failure (free drained)
              | some old ↦
                  if buffer == 0
                  then err null_dereference drained
                  else if x.accepts drained.disk (one_chunk ctx)
                  then ok tt (
                      free (record drained {
                        disk =
                            elim (x.nvm_write drained.disk
                              (io_words x dev u ctx data_placement_mode true) ctx.start_lba
                              (sub64 ctx.nr_lbas 1) (put_bytes old ctx.offset src)) [
                                | none ↦ drained.disk
                                | some d ↦ d
                              ];
                      }))
                  else err device_failure (free drained)
            ]
      ]
