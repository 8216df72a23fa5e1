-- ===== src/Engine/Prefetch/Laws.antt =====
-- Writes of the prefetching engine, used by one thread.

use nvmefs.Device.Placement.{data_placement_mode}
use nvmefs.Prelude.{
  ℕ, ◌≡◌, refl, sym, ◌∙◌, ap, inl, inr, true, List, ◌==◌, put_bytes, mul64, sub64, sub64_exact,
  arith, Bool-cases, Option-cases,
}
use nvmefs.Device.{CmdContext}
use nvmefs.Engine.Async.{open_queue}
use nvmefs.Engine.Interface.{Writes, write_fails, write_returns}
use nvmefs.Engine.Prefetch.{one_chunk, drain_prefetch, prefetch_fill, prefetch_write}
use nvmefs.Engine.Prefetch.Fresh.{IsFresh, drain_prefetch-disk, drain_prefetch-IsCurrent}
use nvmefs.Engine.Prefetch.Reading.{Keeps, drain_prefetch-IsFresh}
use nvmefs.Engine.Sync.{sync_fill}
use nvmefs.Engine.Sync.Laws.{written}
use nvmefs.Engine.Xnvme.{
  Xnvme, IsLawful, CanWrite, NvmeDevice, Engine, allocate_device_buffer, fresh_buffer, io_words,
}
use nvmefs.PathHandler.Defs.{StringUtil}

module _ (x : Xnvme) (dev : NvmeDevice) (u : StringUtil) (thread : ℕ)
    (lawful : IsLawful dev.geometry x) where
  abbrev n : ℕ
  n = dev.geometry.lba_size

  abbrev disk_byte : Engine x → ℕ → ℕ
  disk_byte s = x.byte s.disk

  -- The same bytes are read before a write as in the synchronous engine.
  prefetch_fill-sync_fill :
      (ctx : CmdContext) (size : ℕ) (fresh : List ℕ) (d : x.Disk)
      → prefetch_fill x dev u thread ctx size fresh d ≡ sync_fill x dev u ctx size fresh d
  unfolding prefetch_fill sync_fill
  prefetch_fill-sync_fill ctx size fresh d = refl

  -- Over a namespace that reads and writes as documented, with a thread whose active prefetch holds
  -- the bytes of its blocks if these can be read: when no write to any of the blocks fails, then,
  -- for a command of 1 to 65536 blocks below block 2^64 and fewer than 2^64 bytes, whose bytes lie
  -- in its blocks and are as many as those given, a write of the prefetching engine either returns,
  -- and changes exactly the bytes of the command, or throws, and changes nothing outside its
  -- blocks. In any case it leaves such a prefetch.
  pub prefetch_write-Writes :
      (ctx : CmdContext) (src : List ℕ) (s : Engine x)
      → IsFresh x dev u thread lawful s
      → CanWrite x ctx.start_lba ctx.nr_lbas
      → Writes disk_byte dev.geometry ctx src s (prefetch_write x dev u thread ctx src s)
        × Keeps x dev u thread lawful (prefetch_write x dev u thread ctx src s)
  unfolding prefetch_write
  prefetch_write-Writes ctx src s fresh can =
      let size = mul64 ctx.nr_lbas n in
      let given = allocate_device_buffer x dev size s.buffers in
      elim (Option-cases (open_queue x dev u thread s.queues)) [
        | inl f ↦ rw (f, prefetch_write) (write_fails (λ c k out. refl), fresh)
        | inr (queues, f) ↦
            let ready : Engine x = record s { buffers = given.1; queues = queues } in
            let drained = drain_prefetch x dev u thread ready in
            let same : drained.disk ≡ s.disk = drain_prefetch-disk x dev u thread lawful ready in
            let buffer = fresh_buffer x dev size s.buffers in
            let words = io_words x dev u ctx data_placement_mode true in
            let unchanged : (k : ℕ) → x.byte drained.disk k ≡ x.byte s.disk k =
              λ k. ap (λ d. x.byte d k) same in
            rw (f, prefetch_write)
              (elim (Option-cases (prefetch_fill x dev u thread ctx size buffer drained.disk)) [
                | inl e ↦ rw e (
                  write_fails (λ c k out. unchanged k),
                  drain_prefetch-IsFresh x dev u thread lawful ready,
                )
                | inr (old, e) ↦ rw e (elim (Bool-cases (given.0 == 0)) [
                  | inl null ↦ rw null (
                    write_fails (λ c k out. unchanged k),
                    drain_prefetch-IsFresh x dev u thread lawful ready,
                  )
                  | inr got ↦ rw got (elim (Bool-cases (x.accepts drained.disk (one_chunk ctx))) [
                    | inr refused ↦ rw refused (
                      write_fails (λ c k out. unchanged k),
                      drain_prefetch-IsFresh x dev u thread lawful ready,
                    )
                    | inl taken ↦
                        rw taken
                          (elim (Option-cases (
                            x.nvm_write drained.disk words ctx.start_lba (sub64 ctx.nr_lbas 1)
                              (put_bytes old ctx.offset src))) [
                                | inl g ↦ rw g (
                                  write_returns (λ c len k.
                                      let one =
                                        sub64_exact ctx.nr_lbas 1 c.some_blocks
                                          (omega (arith, c.few_blocks)) in
                                      absurd (
                                        can drained.disk words ctx.start_lba (sub64 ctx.nr_lbas 1)
                                          (put_bytes old ctx.offset src) (omega arith)
                                          (omega (arith, one, c.some_blocks)) g)),
                                  drain_prefetch-IsFresh x dev u thread lawful ready,
                                )
                                | inr (d, g) ↦ rw g (
                                  write_returns (λ c len k.
                                      written x dev u lawful ctx src s old d c len k
                                        (sym (prefetch_fill-sync_fill ctx size buffer s.disk)
                                          ∙ (rw same at e))
                                        (rw same at g)),
                                  drain_prefetch-IsCurrent x dev u thread lawful d ready,
                                )
                              ])
                  ])
                ])
              ])
      ]
