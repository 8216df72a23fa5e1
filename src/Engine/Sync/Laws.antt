-- ===== src/Engine/Sync/Laws.antt =====
-- The synchronous engine is a faithful device.
use mathlib.Core.Option.{some-injective}
use nvmefs.Device.Placement.{data_placement_mode}
use nvmefs.Prelude.{
  ℕ, ◌+◌, ◌-◌, ◌*◌, ◌^◌, ◌<◌, ◌≡◌, refl, sym, ap, ◌∙◌, inl, inr, true, false, ◌||◌, List, some,
  if◌then◌else◌, ltb, ◌==◌, length, get_or, bytes_at, put_bytes, within, mul64, mul64_exact, sub64,
  sub64_exact, arith, Bool-cases, Option-cases, length-bytes_at, get_or-bytes_at,
  get_bytes-bytes_at,
}
use nvmefs.Device.{CmdContext, IsCommand}
use nvmefs.PathHandler.Defs.{StringUtil}
use nvmefs.Engine.Xnvme.{
  Xnvme, IsLawful, NvmeDevice, Engine, allocate_device_buffer, fresh_buffer, io_words,
}
use nvmefs.Engine.Interface.{
  BlockDevice, IsFaithful, first_byte, Reads, read_fails, read_returns, Writes, write_fails,
  write_returns,
}
use nvmefs.Engine.Overwrite.{overwritten}
use nvmefs.Engine.Sync.{sync_read, sync_write, sync_fill, is_partial}

module _ (x : Xnvme) (dev : NvmeDevice) (u : StringUtil) (lawful : IsLawful dev.geometry x) where
  abbrev n : ℕ
  n = dev.geometry.lba_size

  abbrev disk_byte : Engine x → ℕ → ℕ
  disk_byte s = x.byte s.disk

  abbrev pub sync_device : BlockDevice
  sync_device = record {
    State = Engine x;
    byte = disk_byte;
    read = sync_read x dev u;
    write = sync_write x dev u;
  }

  -- The blocks of a command, as its one NVMe command counts them.
  last_block :
      (ctx : CmdContext)
      → IsCommand dev.geometry ctx
      → (sub64 ctx.nr_lbas 1 < 2 ^ 16) × (sub64 ctx.nr_lbas 1 + 1 ≡ ctx.nr_lbas)
  last_block ctx c =
      let e = sub64_exact ctx.nr_lbas 1 c.some_blocks (omega arith) in
      (omega (arith, e), omega (arith, e))

  pub read_blocks :
      (ctx : CmdContext) (d : x.Disk) (w : ℕ × ℕ) (bs : List ℕ)
      → IsCommand dev.geometry ctx
      → x.nvm_read d w ctx.start_lba (sub64 ctx.nr_lbas 1) ≡ some bs
      → bs ≡ bytes_at (x.byte d) (ctx.start_lba * n) (ctx.nr_lbas * n)
  read_blocks ctx d w bs c e =
      let (small, count) = last_block ctx c in
      lawful.read_law d w ctx.start_lba (sub64 ctx.nr_lbas 1) bs small e
      ∙ ap (λ b. bytes_at (x.byte d) (ctx.start_lba * n) (b * n)) count

  -- The buffer that a command is given.
  abbrev buffer_of : CmdContext → Engine x → ℕ
  buffer_of ctx s = (allocate_device_buffer x dev (mul64 ctx.nr_lbas n) s.buffers).0

  sync_read-Reads :
      (ctx : CmdContext) (s : Engine x)
      → Reads disk_byte dev.geometry ctx s (sync_read x dev u ctx s)
  unfolding sync_read
  sync_read-Reads ctx s = elim (Bool-cases (buffer_of ctx s == 0)) [
    | inl null ↦ rw null (read_fails (λ k. refl))
    | inr got ↦
        rw got
          (elim (Option-cases (
            x.nvm_read s.disk (io_words x dev u ctx 0 false) ctx.start_lba (sub64 ctx.nr_lbas 1))) [
              | inl e ↦ rw e (read_fails (λ k. refl))
              | inr (bs, e) ↦ rw e (
                  read_returns (λ k. refl)
                    (λ c. rw (read_blocks ctx s.disk _ bs c e) (
                      get_bytes-bytes_at (x.byte s.disk) (ctx.start_lba * n) (ctx.nr_lbas * n)
                        ctx.offset ctx.nr_bytes c.inside)))
            ])
  ]

  sync_fill-blocks :
      (ctx : CmdContext) (fresh old : List ℕ) (d : x.Disk)
      → IsCommand dev.geometry ctx
      → length fresh ≡ ctx.nr_lbas * n
      → sync_fill x dev u ctx (ctx.nr_lbas * n) fresh d ≡ some old
      → (length old ≡ ctx.nr_lbas * n)
        × ((k : ℕ)
            → k < ctx.nr_lbas * n
            → within ctx.offset ctx.nr_bytes k ≡ false
            → get_or old k 0 ≡ x.byte d (ctx.start_lba * n + k))
  unfolding sync_fill is_partial
  sync_fill-blocks ctx fresh old d c size e =
      elim (Bool-cases (ltb 0 ctx.offset || ltb ctx.nr_bytes (ctx.nr_lbas * n))) [
        | inl partial ↦
            let whole = read_blocks ctx d _ old c (rw partial at e) in
            (
              ap length whole ∙ length-bytes_at (x.byte d) (ctx.start_lba * n) (ctx.nr_lbas * n),
              λ k lt out.
                  ap (λ b. get_or b k 0) whole
                  ∙ get_or-bytes_at (x.byte d) (ctx.start_lba * n) (ctx.nr_lbas * n) k lt,
            )
        | inr whole ↦
            let same : some fresh ≡ some old = rw whole at e in
            (
              ap length (sym (some-injective fresh old same)) ∙ size,
              λ k lt out. absurd (ground arith),
            )
      ]

  pub written :
      (ctx : CmdContext) (src : List ℕ) (s : Engine x) (old : List ℕ) (d : x.Disk)
      → IsCommand dev.geometry ctx
      → length src ≡ ctx.nr_bytes
      → (k : ℕ)
      → sync_fill x dev u ctx
          (mul64 ctx.nr_lbas n)
          (fresh_buffer x dev (mul64 ctx.nr_lbas n) s.buffers)
          s.disk
        ≡ some old
      → x.nvm_write s.disk
          (io_words x dev u ctx data_placement_mode true)
          ctx.start_lba
          (sub64 ctx.nr_lbas 1)
          (put_bytes old ctx.offset src)
        ≡ some d
      → x.byte d k ≡ (
          if within (first_byte dev.geometry ctx) ctx.nr_bytes k
          then get_or src (k - first_byte dev.geometry ctx) 0
          else x.byte s.disk k)
  unfolding fresh_buffer
  written ctx src s old d c len k e f =
      let size = mul64_exact ctx.nr_lbas n c.words in
      let (small, count) = last_block ctx c in
      let (whole, kept) =
        sync_fill-blocks ctx (bytes_at (x.memory s.buffers.calls) 0 (ctx.nr_lbas * n)) old s.disk c
          (length-bytes_at (x.memory s.buffers.calls) 0 (ctx.nr_lbas * n)) (rw size at e) in
      let put =
        lawful.write_law s.disk d (io_words x dev u ctx data_placement_mode true) ctx.start_lba
          (sub64 ctx.nr_lbas 1) (put_bytes old ctx.offset src) k small f in
      let over =
        overwritten old src (ctx.start_lba * n) (ctx.nr_lbas * n) ctx.offset (x.byte s.disk)
          (x.byte d) k whole (omega (arith, len, c.inside)) (λ i lt out. kept i lt (rw len at out))
          (rw count at put) in
      rw len at over

  sync_write-Writes :
      (ctx : CmdContext) (src : List ℕ) (s : Engine x)
      → Writes disk_byte dev.geometry ctx src s (sync_write x dev u ctx src s)
  unfolding sync_write
  sync_write-Writes ctx src s = elim (Bool-cases (buffer_of ctx s == 0)) [
    | inl null ↦ rw null (write_fails (λ c k out. refl))
    | inr got ↦
        rw got
          (elim (Option-cases
            (sync_fill x dev u ctx size (fresh_buffer x dev size s.buffers) s.disk)) [
              | inl e ↦ rw e (write_fails (λ c k out. refl))
              | inr (old, e) ↦
                  rw e
                    (elim (Option-cases (
                      x.nvm_write s.disk (io_words x dev u ctx data_placement_mode true)
                        ctx.start_lba (sub64 ctx.nr_lbas 1) (put_bytes old ctx.offset src))) [
                          | inl f ↦ rw f (write_fails (λ c k out. refl))
                          | inr (d, f) ↦
                              rw f (write_returns (λ c len k. written ctx src s old d c len k e f))
                        ])
            ])
  ]
    where
      size : ℕ
      size = mul64 ctx.nr_lbas n

  -- Over a namespace that reads and writes as documented, the synchronous engine is a faithful
  -- device: for a command of 1 to 65536 blocks below block 2^64 and fewer than 2^64 bytes, whose
  -- bytes lie in its blocks, a read that returns gives the bytes of the command, a write of as many
  -- bytes that returns changes exactly the bytes of the command, and one that fails changes no
  -- other block. No read changes a byte.
  pub sync_device-IsFaithful : IsFaithful dev.geometry sync_device
  sync_device-IsFaithful = record { reads = sync_read-Reads; writes = sync_write-Writes }
