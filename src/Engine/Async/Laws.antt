-- ===== src/Engine/Async/Laws.antt =====
-- Writes of the asynchronous engine, in whatever order their commands are executed.

use nvmefs.Device.Placement.{data_placement_mode}
use nvmefs.Prelude.{
  ℕ, ◌+◌, ◌-◌, ◌*◌, ◌<◌, ◌≤◌, ◌≡◌, refl, sym, ◌∙◌, ap, inl, inr, true, false, List, some,
  if◌then◌else◌, ◌==◌, length, get_or, bytes_at, put_bytes, within, mul64, mul64_exact, arith, All,
  Run, ok, err, device_failure, Error, ◌⊎◌, Bool-cases, Option-cases, length-bytes_at,
  get_or-bytes_at,
}
use nvmefs.Device.Buffers.{BufferAllocator}
use nvmefs.Device.{CmdContext, IsCommand}
use nvmefs.Engine.Async.{
  queue_depth, max_lbas, chunks_of, submit, run_writes, open_queue, read_chunks, async_fill,
  async_write_chunks, async_write,
}
use nvmefs.Engine.Async.Chunks.{HasSmallBlocks, chunks_of-Tiles}
use nvmefs.Engine.Async.Reading.{IsReordering, submission_cases, chunks_found, filled}
use nvmefs.Engine.Async.Parts.{IsPart, covers, any, Tiles-All, Tiles-covers}
use nvmefs.Engine.Async.Runs.{
  read_chunks-run_reads, run_writes-outside, run_writes-right, submit-All, submit-all_taken,
}
use nvmefs.Engine.Interface.{in_blocks, Writes, write_fails, write_returns}
use nvmefs.Engine.Overwrite.{overwritten}
use nvmefs.Engine.Sync.{is_partial}
use nvmefs.Engine.Xnvme.{
  Xnvme, IsLawful, CanWrite, Chunk, NvmeDevice, Engine, allocate_device_buffer, fresh_buffer,
  io_words,
}
use nvmefs.PathHandler.Defs.{StringUtil}

module _ (x : Xnvme) (dev : NvmeDevice) (u : StringUtil) (thread : ℕ)
    (lawful : IsLawful dev.geometry x) (small : HasSmallBlocks dev) (order : IsReordering x) where
  abbrev n : ℕ
  n = dev.geometry.lba_size

  abbrev disk_byte : Engine x → ℕ → ℕ
  disk_byte s = x.byte s.disk

  -- The blocks of a command after all its writes, in any order.
  stored :
      (ctx : CmdContext) (d : x.Disk) (w : ℕ × ℕ) (cs : List Chunk) (buf : List ℕ) (k : ℕ)
      → IsCommand dev.geometry ctx
      → CanWrite x ctx.start_lba ctx.nr_lbas
      → All (IsPart n ctx.start_lba ctx.nr_lbas) cs
      → ((j : ℕ) → j < ctx.nr_lbas * n → any (covers n j) cs ≡ true)
      → x.byte (run_writes x dev u thread w buf cs d) k ≡ (
          if within (ctx.start_lba * n) (ctx.nr_lbas * n) k
          then get_or buf (k - ctx.start_lba * n) 0
          else x.byte d k)
  stored ctx d w cs buf k c can parts all =
      elim (Bool-cases (within (ctx.start_lba * n) (ctx.nr_lbas * n) k)) [
        | inl inside ↦
            let low : ctx.start_lba * n ≤ k = ground arith in
            let lt : k - ctx.start_lba * n < ctx.nr_lbas * n = ground arith in
            rw inside (
              run_writes-right x dev u thread lawful ctx.start_lba ctx.nr_lbas c.few_blocks can w
                buf k low cs d parts (inr (all (k - ctx.start_lba * n) lt)))
        | inr outside ↦ rw outside (
            run_writes-outside x dev u thread lawful ctx.start_lba ctx.nr_lbas c.few_blocks w buf k
              outside cs d parts)
      ]

  -- What the buffer of a write holds before the bytes are copied into it.
  abbrev IsFilled : CmdContext → Engine x → (src old : List ℕ) → Type 0
  IsFilled ctx s src old =
      (length old ≡ ctx.nr_lbas * n)
      × ((i : ℕ)
          → i < ctx.nr_lbas * n
          → within ctx.offset (length src) i ≡ false
          → get_or old i 0 ≡ x.byte s.disk (ctx.start_lba * n + i))

  async_fill-IsFilled :
      (ctx : CmdContext) (s : Engine x) (src fresh old : List ℕ)
      → IsCommand dev.geometry ctx
      → length src ≡ ctx.nr_bytes
      → length fresh ≡ ctx.nr_lbas * n
      → async_fill x dev u thread ctx (ctx.nr_lbas * n) fresh s.disk ≡ ok old tt
      → IsFilled ctx s src old
  unfolding async_fill is_partial
  async_fill-IsFilled ctx s src fresh old c len size e =
      elim (Bool-cases (is_partial x dev u ctx (ctx.nr_lbas * n))) [
        | inr whole ↦
            let same : fresh ≡ old = run_value (rw (whole, async_fill) at e) in
            (ap length (sym same) ∙ size, λ i lt out. absurd (unread whole i lt out))
        | inl partial ↦
            let (cs, found, tiles) = chunks_of-Tiles dev ctx small c in
            elim (Option-cases (read_chunks x dev u thread (0, 0) s.disk cs fresh)) [
              | inl f ↦ absurd (failed (rw (partial, found, f, async_fill) at e))
              | inr (bs, f) ↦
                  let same : bs ≡ old = run_value (rw (partial, found, f, async_fill) at e) in
                  let (done, run) =
                    read_chunks-run_reads x dev u thread lawful ctx.start_lba ctx.nr_lbas
                      c.few_blocks (0, 0) s.disk 0 cs fresh bs f in
                  let whole =
                    sym same
                    ∙ run
                    ∙ filled x dev u thread lawful small order ctx s.disk (0, 0) cs fresh c
                        (Tiles-All n ctx.start_lba ctx.nr_lbas 0 cs tiles) done
                        (λ k lt.
                          Tiles-covers n ctx.start_lba ctx.nr_lbas 0 k cs tiles (omega arith) lt)
                        size in
                  (
                    ap length whole
                        ∙ length-bytes_at (x.byte s.disk) (ctx.start_lba * n) (ctx.nr_lbas * n),
                    λ i lt out.
                        ap (λ b. get_or b i 0) whole
                        ∙ get_or-bytes_at (x.byte s.disk) (ctx.start_lba * n) (ctx.nr_lbas * n) i
                            lt,
                  )
            ]
      ]
    where
      run_value : {a b : List ℕ} → ◌≡◌ {A = Run (Unit {0}) (List ℕ)} (ok a tt) (ok b tt) → a ≡ b
      run_value {a} {b} h = ap (λ r. elim r as (λ _. List ℕ) [ ok v w ↦ v | err er w ↦ a ]) h

      failed :
          {b : List ℕ} → ◌≡◌ {A = Run (Unit {0}) (List ℕ)} (err device_failure tt) (ok b tt) → ⊥
      failed h = cc

      unread :
          is_partial x dev u ctx (ctx.nr_lbas * n) ≡ false
          → (i : ℕ) → i < ctx.nr_lbas * n
          → within ctx.offset (length src) i ≡ false
          → ⊥
      unread whole i lt out = ground arith

  -- The commands that a queue took write nothing outside their transfer, whatever the buffer holds.
  taken_outside :
      (ctx : CmdContext) (s t : Engine x) (cs : List Chunk) (w : ℕ × ℕ) (buf : List ℕ)
      → t.disk ≡ s.disk
      → chunks_of dev ctx ≡ some cs
      → IsCommand dev.geometry ctx
      → (k : ℕ) → in_blocks dev.geometry ctx k ≡ false
      → x.byte
          (run_writes x dev u thread w buf
            (x.schedule (submit x dev u thread queue_depth t.disk cs).0)
            t.disk)
          k
        ≡ x.byte s.disk k
  taken_outside ctx s t cs w buf same e c k out =
      let tiles = chunks_found x dev u thread lawful small order ctx cs c e in
      let parts =
        submit-All x dev u thread lawful ctx.start_lba ctx.nr_lbas c.few_blocks
          (IsPart n ctx.start_lba ctx.nr_lbas) queue_depth t.disk cs
          (Tiles-All n ctx.start_lba ctx.nr_lbas 0 cs tiles) in
      run_writes-outside x dev u thread lawful ctx.start_lba ctx.nr_lbas c.few_blocks w buf k out
        (x.schedule (submit x dev u thread queue_depth t.disk cs).0) t.disk (order.all_of _ _ parts)
      ∙ ap (λ d. x.byte d k) same

  write_chunks-Writes :
      (ctx : CmdContext) (s t : Engine x) (src old : List ℕ) (held : BufferAllocator)
      (cs : List Chunk)
      → CanWrite x ctx.start_lba ctx.nr_lbas
      → t.disk ≡ s.disk
      → chunks_of dev ctx ≡ some cs
      → (IsCommand dev.geometry ctx → length src ≡ ctx.nr_bytes → IsFilled ctx s src old)
      → Writes disk_byte dev.geometry ctx src s
          (async_write_chunks x dev u thread ctx (put_bytes old ctx.offset src) held cs t)
  unfolding async_write_chunks
  write_chunks-Writes ctx s t src old held cs can same e filled_by =
      elim (submission_cases (submit x dev u thread queue_depth t.disk cs).1) [
        | inr (inl stop) ↦
            rw (stop, async_write_chunks)
              (write_fails (λ c k out. taken_outside ctx s t cs _ _ same e c k out))
        | inr (inr stop) ↦
            rw (stop, async_write_chunks)
              (write_fails (λ c k out. taken_outside ctx s t cs _ _ same e c k out))
        | inl all ↦
            rw (all, async_write_chunks)
              (write_returns (λ c len k.
                let tiles = chunks_found x dev u thread lawful small order ctx cs c e in
                let taken =
                  submit-all_taken x dev u thread lawful ctx.start_lba ctx.nr_lbas c.few_blocks
                    queue_depth t.disk cs all in
                let (whole, kept) = filled_by c len in
                let put =
                  stored ctx t.disk (io_words x dev u ctx data_placement_mode true) (x.schedule cs)
                    (put_bytes old ctx.offset src) k c can
                    (order.all_of _ cs (Tiles-All n ctx.start_lba ctx.nr_lbas 0 cs tiles))
                    (λ j lt.
                      order.any_of _ cs
                        (Tiles-covers n ctx.start_lba ctx.nr_lbas 0 j cs tiles (omega arith) lt)) in
                let over =
                  overwritten old src (ctx.start_lba * n) (ctx.nr_lbas * n) ctx.offset
                    (x.byte s.disk)
                    (x.byte (
                      run_writes x dev u thread (io_words x dev u ctx data_placement_mode true)
                        (put_bytes old ctx.offset src) (x.schedule cs) t.disk))
                    k whole (omega (arith, len, c.inside)) kept
                    (put
                      ∙ ap
                          (λ d.
                            if within (ctx.start_lba * n) (ctx.nr_lbas * n) k
                            then get_or (put_bytes old ctx.offset src) (k - ctx.start_lba * n) 0
                            else x.byte d k)
                          same) in
                ap
                  (λ l.
                    x.byte
                      (run_writes x dev u thread (io_words x dev u ctx data_placement_mode true)
                        (put_bytes old ctx.offset src) (x.schedule l) t.disk)
                      k)
                  taken
                ∙ (rw len at over)))
      ]

  -- Over a namespace that reads and writes as documented, with blocks of at most 4096 bytes, and in
  -- whatever order the commands of a transfer are executed: when no write to any of the blocks
  -- fails, then, for a command of 1 to 65536 blocks below block 2^64 and fewer than 2^64 bytes,
  -- whose bytes lie in its blocks and are as many as those given, a write of the asynchronous
  -- engine either returns, and changes exactly the bytes of the command, or throws, and changes
  -- nothing outside its blocks.
  pub async_write-Writes :
      (ctx : CmdContext) (src : List ℕ) (s : Engine x)
      → CanWrite x ctx.start_lba ctx.nr_lbas
      → Writes disk_byte dev.geometry ctx src s (async_write x dev u thread ctx src s)
  unfolding async_write fresh_buffer
  async_write-Writes ctx src s can =
      elim (Bool-cases ((allocate_device_buffer x dev size s.buffers).0 == 0)) [
        | inl null ↦ rw null (write_fails (λ c k out. refl))
        | inr got ↦ rw got (elim (fill_cases (async_fill x dev u thread ctx size fresh s.disk)) [
          | inl (er, f) ↦ rw f (write_fails (λ c k out. refl))
          | inr (old, f) ↦ rw f (elim (Option-cases (open_queue x dev u thread s.queues)) [
            | inl q ↦ rw q (write_fails (λ c k out. refl))
            | inr (queues, q) ↦ rw q (elim (Bool-cases (max_lbas dev == 0)) [
              | inl zero ↦ rw zero (write_fails (λ c k out. refl))
              | inr some_blocks ↦ rw some_blocks (elim (Option-cases (chunks_of dev ctx)) [
                | inl e ↦ rw e (write_fails (λ c k out. refl))
                | inr (cs, e) ↦ rw e (
                    write_chunks-Writes ctx s _ src old _ cs can refl e (λ c len.
                      let exact = mul64_exact ctx.nr_lbas n c.words in
                      async_fill-IsFilled ctx s src
                        (bytes_at (x.memory s.buffers.calls) 0 (ctx.nr_lbas * n)) old c len
                        (length-bytes_at (x.memory s.buffers.calls) 0 (ctx.nr_lbas * n))
                        (rw exact at f)))
              ])
            ])
          ])
        ])
      ]
    where
      size : ℕ
      size = mul64 ctx.nr_lbas n

      fresh : List ℕ
      fresh = bytes_at (x.memory s.buffers.calls) 0 size

      fill_cases :
          (r : Run (Unit {0}) (List ℕ))
          → ((er : Error) × (r ≡ err er tt)) ⊎ ((old : List ℕ) × (r ≡ ok old tt))
      fill_cases (ok old tt) = inr (old, refl)
      fill_cases (err er tt) = inl (er, refl)
