-- ===== src/Engine/Async.antt =====
-- NvmeAsyncIOEngine: a transfer is cut into commands that a queue takes, and that the device executes
-- in an order of its own. The wait for their promises ends when all have completed; the callback
-- prints a failed status and fulfils the promise all the same.
pub mod Chunks
pub mod Parts
pub mod Runs
pub mod Reading
pub mod Laws
use nvmefs.Prelude.{
  ℕ, zero, suc, ◌+◌, ◌-◌, ◌*◌, ◌/◌, ◌%◌, ◌^◌, Bool, true, false, not, List, [], ◌∷◌, Option, some,
  none, if◌then◌else◌, ltb, ◌==◌, get_or, set, put_bytes, get_bytes, mul64, add64, sub64, Cmd, Run,
  ok, err, device_failure, no_buffer, queue_failure, division_by_zero, out_of_fuel,
  null_dereference, use_after_free, Error, bytes_at, length,
}
use nvmefs.Device.{DeviceGeometry, CmdContext}
use nvmefs.Device.Buffers.{BufferAllocator}
use nvmefs.Device.Placement.{data_placement_mode}
use nvmefs.PathHandler.Defs.{StringUtil}
use nvmefs.Engine.Xnvme.{
  Xnvme, Chunk, NvmeDevice, Engine, allocate_device_buffer, free_device_buffer, fresh_buffer,
  io_words,
}
use nvmefs.Engine.Sync.{is_partial}

-- The most blocks of one command: the controller's limit, or 127, cut down to whole 4 KiB.
unfoldable pub max_lbas : NvmeDevice → ℕ
max_lbas dev =
    let limit = if ltb 0 dev.mdts_nbytes then dev.mdts_nbytes / dev.geometry.lba_size else 127 in
    let per_4k = 4096 / dev.geometry.lba_size in
    let clamped = if ltb 0 per_4k then limit / per_4k * per_4k else limit in
    if clamped == 0 then per_4k else clamped

-- The loop over `lbas_left`, a uint32_t like `buf_offset`; `none` when the fuel runs out.
unfoldable pub split_chunks :
    (fuel lba_size max lbas_left slba buf_offset : ℕ) → Option (List Chunk)
split_chunks zero lba_size max left slba buf_offset = none
split_chunks (suc fuel) lba_size max left slba buf_offset =
    let chunk = if ltb max left then max else left in
    elim (left == 0) [
      | true ↦ some []
      | false ↦
          elim (split_chunks fuel lba_size max (left - chunk) (add64 slba chunk)
            ((buf_offset + chunk * lba_size) % 2 ^ 32)) [
              | none ↦ none
              | some cs ↦ some (record { slba = slba; count = chunk; buf_offset = buf_offset } ∷ cs)
            ]
    ]

unfoldable pub chunks_of : NvmeDevice → CmdContext → Option (List Chunk)
chunks_of dev ctx =
    let left = ctx.nr_lbas % 2 ^ 32 in
    split_chunks (suc left) dev.geometry.lba_size (max_lbas dev) left ctx.start_lba 0

-- XNVME_QUEUE_DEPTH: the commands that a queue has contexts for.
abbrev pub queue_depth : ℕ
queue_depth = 16

-- How the loop over the commands of a transfer ends: the queue took them all, refused one, or had no
-- context left for one.
pub data Submission : Type 0 where
  all_taken refused exhausted : Submission

-- A refusal frees the buffer and destroys the promises, which commands in flight still use.
unfoldable pub refusal : (taken : List Chunk) → Error
refusal [] = device_failure
refusal (c ∷ cs) = use_after_free

module _ (x : Xnvme) (dev : NvmeDevice) (u : StringUtil) (thread : ℕ) where
  -- The commands that the queue takes, at most as many as it has contexts left, and why it takes no
  -- more.
  unfoldable pub submit : (contexts : ℕ) → x.Disk → List Chunk → List Chunk × Submission
  submit contexts d [] = ([], all_taken)
  submit zero d (c ∷ cs) = ([], exhausted)
  submit (suc contexts) d (c ∷ cs) =
      let rest = submit contexts d cs in
      if x.accepts d c then (c ∷ rest.0, rest.1) else ([], refused)

  -- The execution of read commands into a buffer; one that fails leaves the buffer alone.
  unfoldable pub run_reads : ℕ × ℕ → x.Disk → List Chunk → List ℕ → List ℕ
  run_reads w d [] buf = buf
  run_reads w d (c ∷ cs) buf = run_reads w d cs (elim (x.nvm_read d w c.slba (sub64 c.count 1)) [
    | none ↦ buf
    | some bs ↦ put_bytes buf c.buf_offset bs
  ])

  -- The execution of write commands out of a buffer.
  unfoldable pub run_writes : ℕ × ℕ → List ℕ → List Chunk → x.Disk → x.Disk
  run_writes w buf [] d = d
  run_writes w buf (c ∷ cs) d =
      run_writes w buf cs
        (elim (x.nvm_write d w c.slba (sub64 c.count 1)
          (get_bytes buf c.buf_offset (c.count * dev.geometry.lba_size))) [
            | none ↦ d
            | some d' ↦ d'
          ])

  -- The queue of the thread, made at its first use.
  unfoldable pub open_queue : List Bool → Option (List Bool)
  open_queue queues =
      if get_or queues thread false
      then some queues
      else if x.queue_init thread
      then some (set queues thread true)
      else none

  -- The reads before a write of parts of blocks: they are synchronous, and the first failure ends them.
  unfoldable pub read_chunks : ℕ × ℕ → x.Disk → List Chunk → List ℕ → Option (List ℕ)
  read_chunks w d [] buf = some buf
  read_chunks w d (c ∷ cs) buf = elim (x.nvm_read d w c.slba (sub64 c.count 1)) [
    | none ↦ none
    | some bs ↦ read_chunks w d cs (put_bytes buf c.buf_offset bs)
  ]

  -- From the queue on: the commands of a read, and the copy out of the buffer. In the state `s` the
  -- buffer is freed; `held` are the buffers before.
  unfoldable pub async_read_chunks :
      CmdContext → List ℕ → (held : BufferAllocator) → List Chunk → Cmd (Engine x) (List ℕ)
  async_read_chunks ctx fresh held cs s =
      let (taken, result) = submit queue_depth s.disk cs in
      elim result [
        | all_taken ↦
            ok
              (get_bytes (run_reads (io_words x dev u ctx 0 false) s.disk (x.schedule taken) fresh)
                ctx.offset ctx.nr_bytes)
              s
        | refused ↦ err (refusal taken) s
        | exhausted ↦ err null_dereference (record s { buffers = held })
      ]

  unfoldable pub async_read : CmdContext → Cmd (Engine x) (List ℕ)
  async_read ctx s =
      let size = mul64 ctx.nr_lbas dev.geometry.lba_size in
      let (buffer, buffers) = allocate_device_buffer x dev size s.buffers in
      let freed = record s { buffers = free_device_buffer x dev buffer size buffers } in
      if buffer == 0
      then err no_buffer (record s { buffers = buffers })
      else elim (open_queue s.queues) [
        | none ↦ err queue_failure freed
        | some queues ↦
            let ready = record freed { queues = queues } in
            if max_lbas dev == 0 then err division_by_zero ready else elim (chunks_of dev ctx) [
              | none ↦ err out_of_fuel ready
              | some cs ↦ async_read_chunks ctx (fresh_buffer x dev size s.buffers) buffers cs ready
            ]
      ]

  unfoldable pub async_fill : CmdContext → (size : ℕ) → List ℕ → x.Disk → Run (Unit {0}) (List ℕ)
  async_fill ctx size fresh d =
      if is_partial x dev u ctx size
      then elim (chunks_of dev ctx) [
        | none ↦ err out_of_fuel tt
        | some cs ↦ elim (read_chunks (0, 0) d cs fresh) [
          | none ↦ err device_failure tt
          | some old ↦ ok old tt
        ]
      ]
      else ok fresh tt

  -- From the queue on: the commands of a write. After a refusal those in flight write what is then in
  -- the memory of the freed buffer.
  unfoldable pub async_write_chunks :
      CmdContext → List ℕ → (held : BufferAllocator) → List Chunk → Cmd (Engine x) (Unit {0})
  async_write_chunks ctx buf held cs s =
      let (taken, result) = submit queue_depth s.disk cs in
      let written : List ℕ → x.Disk = λ b.
        run_writes (io_words x dev u ctx data_placement_mode true) b (x.schedule taken) s.disk in
      elim result [
        | all_taken ↦ ok tt (record s { disk = written buf })
        | refused ↦
            err (refusal taken)
              (record s { disk = written (bytes_at (x.reused s.buffers.calls) 0 (length buf)) })
        | exhausted ↦ err null_dereference (record s { disk = written buf; buffers = held })
      ]

  unfoldable pub async_write : CmdContext → List ℕ → Cmd (Engine x) (Unit {0})
  async_write ctx src s =
      let size = mul64 ctx.nr_lbas dev.geometry.lba_size in
      let (buffer, buffers) = allocate_device_buffer x dev size s.buffers in
      let freed = record s { buffers = free_device_buffer x dev buffer size buffers } in
      if buffer == 0
      then err no_buffer (record s { buffers = buffers })
      else elim (async_fill ctx size (fresh_buffer x dev size s.buffers) s.disk) [
        | err e unit ↦ err e freed
        | ok old unit ↦ elim (open_queue s.queues) [
          | none ↦ err queue_failure freed
          | some queues ↦
              let ready = record freed { queues = queues } in
              if max_lbas dev == 0 then err division_by_zero ready else elim (chunks_of dev ctx) [
                | none ↦ err out_of_fuel ready
                | some cs ↦ async_write_chunks ctx (put_bytes old ctx.offset src) buffers cs ready
              ]
        ]
      ]
