-- ===== src/Engine/Async/Reading.antt =====
-- Reads of the asynchronous engine, in whatever order their commands are executed.
use mathlib.Core.Option.{some-injective}
use nvmefs.Prelude.{
  ℕ, ◌+◌, ◌*◌, ◌<◌, ◌≡◌, refl, sym, ◌∙◌, ap, subst, inl, inr, Bool, true, false, List, some, ◌==◌,
  length, bytes_at, get_bytes, mul64, mul64_exact, arith, All, Bool-cases, ◌⊎◌, Option-cases,
  bytes_ext, length-bytes_at, get_or-bytes_at, get_bytes-bytes_at,
}
use nvmefs.Device.Buffers.{BufferAllocator}
use nvmefs.Device.{CmdContext, IsCommand}
use nvmefs.Engine.Async.{
  Submission, all_taken, refused, exhausted, queue_depth, max_lbas, chunks_of, submit, run_reads,
  open_queue, async_read_chunks, async_read,
}
use nvmefs.Engine.Async.Chunks.{Tiles, HasSmallBlocks, chunks_of-Tiles}
use nvmefs.Engine.Async.Parts.{IsPart, covers, any, Tiles-All, Tiles-covers}
use nvmefs.Engine.Async.Runs.{
  Complete, CanRead-Complete, length-run_reads, run_reads-right, submit-all_taken,
}
use nvmefs.Engine.Interface.{Reads, read_fails, read_returns}
use nvmefs.Engine.Xnvme.{
  Xnvme, IsLawful, CanRead, Chunk, NvmeDevice, Engine, allocate_device_buffer, fresh_buffer,
  io_words,
}
use nvmefs.PathHandler.Defs.{StringUtil}

-- The device executes the commands that it was given, in some order.
pub record IsReordering (x : Xnvme) : Type 1 where
  pub all_of : (P : Chunk → Type 0) (cs : List Chunk) → All P cs → All P (x.schedule cs)
  pub any_of : (p : Chunk → Bool) (cs : List Chunk) → any p cs ≡ true → any p (x.schedule cs) ≡ true

-- How the loop over the commands of a transfer ended.
pub submission_cases : (r : Submission) → (r ≡ all_taken) ⊎ (r ≡ refused) ⊎ (r ≡ exhausted)
submission_cases all_taken = inl refl
submission_cases refused = inr (inl refl)
submission_cases exhausted = inr (inr refl)

module _ (x : Xnvme) (dev : NvmeDevice) (u : StringUtil) (thread : ℕ)
    (lawful : IsLawful dev.geometry x) (small : HasSmallBlocks dev) (order : IsReordering x) where
  abbrev n : ℕ
  n = dev.geometry.lba_size

  abbrev disk_byte : Engine x → ℕ → ℕ
  disk_byte s = x.byte s.disk

  pub chunks_found :
      (ctx : CmdContext) (cs : List Chunk)
      → IsCommand dev.geometry ctx
      → chunks_of dev ctx ≡ some cs
      → Tiles n ctx.start_lba ctx.nr_lbas 0 cs
  chunks_found ctx cs c e =
      let (cs', e', t) = chunks_of-Tiles dev ctx small c in
      subst (Tiles n ctx.start_lba ctx.nr_lbas 0) (some-injective cs' cs (sym e' ∙ e)) t

  -- Any run of all the reads of a command fills the buffer with its blocks.
  pub filled :
      (ctx : CmdContext) (d : x.Disk) (w : ℕ × ℕ) (cs : List Chunk) (fresh : List ℕ)
      → (c : IsCommand dev.geometry ctx) → All (IsPart n ctx.start_lba ctx.nr_lbas) cs
      → Complete x dev u thread lawful ctx.start_lba ctx.nr_lbas c.few_blocks w d cs
      → ((k : ℕ) → k < ctx.nr_lbas * n → any (covers n k) cs ≡ true)
      → length fresh ≡ ctx.nr_lbas * n
      → run_reads x dev u thread w d cs fresh
        ≡ bytes_at (x.byte d) (ctx.start_lba * n) (ctx.nr_lbas * n)
  filled ctx d w cs fresh c parts done all len =
      let size =
        length-run_reads x dev u thread lawful ctx.start_lba ctx.nr_lbas c.few_blocks w d 0 cs fresh
        ∙ len in
      bytes_ext _ _ (size ∙ sym (length-bytes_at (x.byte d) (ctx.start_lba * n) (ctx.nr_lbas * n)))
        (λ k lt.
          let small_k : k < ctx.nr_lbas * n = omega (arith, size) in
          run_reads-right x dev u thread lawful ctx.start_lba ctx.nr_lbas c.few_blocks w d k cs
            fresh parts done len (inr (all k small_k))
          ∙ sym (get_or-bytes_at (x.byte d) (ctx.start_lba * n) (ctx.nr_lbas * n) k small_k))

  read_chunks-Reads :
      (ctx : CmdContext) (s t : Engine x) (fresh : List ℕ) (held : BufferAllocator)
      (cs : List Chunk)
      → CanRead x s.disk ctx.start_lba ctx.nr_lbas
      → t.disk ≡ s.disk
      → chunks_of dev ctx ≡ some cs
      → (IsCommand dev.geometry ctx → length fresh ≡ ctx.nr_lbas * n)
      → Reads disk_byte dev.geometry ctx s (async_read_chunks x dev u thread ctx fresh held cs t)
  unfolding async_read_chunks
  read_chunks-Reads ctx s t fresh held cs can same e len =
      elim (submission_cases (submit x dev u thread queue_depth t.disk cs).1) [
        | inr (inl stop) ↦
            rw (stop, async_read_chunks) (read_fails (λ k. ap (λ d. x.byte d k) same))
        | inr (inr stop) ↦
            rw (stop, async_read_chunks) (read_fails (λ k. ap (λ d. x.byte d k) same))
        | inl all ↦
            rw (all, async_read_chunks)
              (read_returns (λ k. ap (λ d. x.byte d k) same)
                (λ c.
                  let tiles = chunks_found ctx cs c e in
                  let parts = Tiles-All n ctx.start_lba ctx.nr_lbas 0 cs tiles in
                  let w = io_words x dev u ctx 0 false in
                  let taken =
                    submit-all_taken x dev u thread lawful ctx.start_lba ctx.nr_lbas c.few_blocks
                      queue_depth t.disk cs all in
                  let done =
                    CanRead-Complete x dev u thread lawful ctx.start_lba ctx.nr_lbas c.few_blocks w
                      t.disk (subst (λ d. CanRead x d ctx.start_lba ctx.nr_lbas) (sym same) can) cs
                      parts in
                  let whole =
                    filled ctx t.disk w (x.schedule cs) fresh c (order.all_of _ cs parts)
                      (order.all_of _ cs done)
                      (λ k lt.
                        order.any_of _ cs
                          (Tiles-covers n ctx.start_lba ctx.nr_lbas 0 k cs tiles (omega arith) lt))
                      (len c) in
                  ap
                    (λ l.
                      get_bytes (run_reads x dev u thread w t.disk (x.schedule l) fresh) ctx.offset
                        ctx.nr_bytes)
                    taken
                  ∙ ap (λ b. get_bytes b ctx.offset ctx.nr_bytes) whole
                  ∙ get_bytes-bytes_at (x.byte t.disk) (ctx.start_lba * n) (ctx.nr_lbas * n)
                      ctx.offset ctx.nr_bytes c.inside
                  ∙ ap (λ d. bytes_at (x.byte d) (ctx.start_lba * n + ctx.offset) ctx.nr_bytes)
                      same))
      ]

  -- Over a namespace that reads and writes as documented, with blocks of at most 4096 bytes, and in
  -- whatever order the commands of a transfer are executed: when no read of any of the blocks
  -- fails, then, for a command of 1 to 65536 blocks below block 2^64 and fewer than 2^64 bytes,
  -- whose bytes lie in its blocks, a read of the asynchronous engine either throws or returns the
  -- bytes of the command. It changes no byte.
  pub async_read-Reads :
      (ctx : CmdContext) (s : Engine x)
      → CanRead x s.disk ctx.start_lba ctx.nr_lbas
      → Reads disk_byte dev.geometry ctx s (async_read x dev u thread ctx s)
  unfolding async_read fresh_buffer
  async_read-Reads ctx s can =
      elim (Bool-cases ((allocate_device_buffer x dev (mul64 ctx.nr_lbas n) s.buffers).0 == 0)) [
        | inl null ↦ rw null (read_fails (λ k. refl))
        | inr got ↦ rw got (elim (Option-cases (open_queue x dev u thread s.queues)) [
          | inl f ↦ rw f (read_fails (λ k. refl))
          | inr (queues, f) ↦ rw f (elim (Bool-cases (max_lbas dev == 0)) [
            | inl zero ↦ rw zero (read_fails (λ k. refl))
            | inr some_blocks ↦ rw some_blocks (elim (Option-cases (chunks_of dev ctx)) [
              | inl e ↦ rw e (read_fails (λ k. refl))
              | inr (cs, e) ↦ rw e (
                  read_chunks-Reads ctx s _ _ _ cs can refl e (λ c.
                    length-bytes_at (x.memory s.buffers.calls) 0 (mul64 ctx.nr_lbas n)
                    ∙ mul64_exact ctx.nr_lbas n c.words))
            ])
          ])
        ])
      ]
