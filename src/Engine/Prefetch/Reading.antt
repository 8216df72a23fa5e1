-- ===== src/Engine/Prefetch/Reading.antt =====
-- Reads of the prefetching engine, used by one thread.
use mathlib.Core.Option.{some-injective}
use nvmefs.Prelude.{
  ℕ, ◌*◌, bytes_at, ◌≡◌, refl, sym, ◌∙◌, ap, subst, inl, inr, ◌&&◌, List, some, none, ◌==◌,
  get_bytes, mul64, arith, Bool-cases, Option-cases, get_bytes-bytes_at, Run, ok, err, Error, ◌⊎◌,
}
use nvmefs.Device.{CmdContext, IsCommand}
use nvmefs.Engine.Async.{open_queue}
use nvmefs.Engine.Interface.{first_byte, Reads, read_fails, read_returns}
use nvmefs.Engine.Prefetch.{
  one_chunk, prefetch_of, drain_prefetch, prefetched, read_now, prefetch_next, prefetch_read,
}
use nvmefs.Engine.Prefetch.Fresh.{
  IsCurrent, IsFresh, drain_prefetch-disk, drain_prefetch-IsCurrent, executed_read-blocks,
  prefetch_next-disk, prefetch_next-IsCurrent,
}
use nvmefs.Engine.Xnvme.{Xnvme, IsLawful, CanRead, NvmeDevice, Engine, allocate_device_buffer}
use nvmefs.PathHandler.Defs.{StringUtil}

module _ (x : Xnvme) (dev : NvmeDevice) (u : StringUtil) (thread : ℕ)
    (lawful : IsLawful dev.geometry x) where
  abbrev n : ℕ
  n = dev.geometry.lba_size

  abbrev disk_byte : Engine x → ℕ → ℕ
  disk_byte s = x.byte s.disk

  abbrev Fresh : Engine x → Type 0
  Fresh = IsFresh x dev u thread lawful

  -- A result, if the state it leaves is fresh.
  abbrev pub Keeps : {A : Type 0} → Run (Engine x) A → Type 0
  Keeps (ok a s) = IsFresh x dev u thread lawful s
  Keeps (err e s) = IsFresh x dev u thread lawful s

  -- After a prefetch from a state with the same namespace.
  prefetch_next-IsFresh :
      (ctx : CmdContext) (size : ℕ) (s : Engine x) → Fresh (prefetch_next x dev u thread ctx size s)
  prefetch_next-IsFresh ctx size s =
      subst
        (λ d.
          IsCurrent x dev u thread lawful d
            (prefetch_of x dev u thread (prefetch_next x dev u thread ctx size s)))
        (sym (prefetch_next-disk x dev u thread lawful ctx size s))
        (prefetch_next-IsCurrent x dev u thread lawful ctx size s)

  pub drain_prefetch-IsFresh :
      (s : Engine x) → IsFresh x dev u thread lawful (drain_prefetch x dev u thread s)
  drain_prefetch-IsFresh s = drain_prefetch-IsCurrent x dev u thread lawful _ s

  -- The bytes that a read takes from a prefetch.
  prefetched-bytes :
      (ctx : CmdContext) (s : Engine x) (bs : List ℕ)
      → Fresh s
      → prefetched x dev u thread ctx s ≡ some bs
      → CanRead x s.disk ctx.start_lba ctx.nr_lbas
      → IsCommand dev.geometry ctx
      → bs ≡ bytes_at (disk_byte s) (first_byte dev.geometry ctx) ctx.nr_bytes
  unfolding prefetched
  prefetched-bytes ctx s bs fresh e can c =
      let p = prefetch_of x dev u thread s in
      elim (Bool-cases
        (p.active && ((ctx.start_lba == p.expected_lba) && (ctx.nr_lbas == p.expected_nr_lbas)))) [
          | inl hit ↦
              sym (some-injective _ _ (rw hit at e))
              ∙ ap (λ b. get_bytes b ctx.offset ctx.nr_bytes)
                  (fresh ctx c can (ground arith) (ground arith) (ground arith))
              ∙ get_bytes-bytes_at (disk_byte s) (ctx.start_lba * n) (ctx.nr_lbas * n) ctx.offset
                  ctx.nr_bytes c.inside
          | inr miss ↦ absurd (nothing (rw miss at e))
        ]
    where
      nothing : {A : Type 0} {a : A} → none ≡ some a → ⊥
      nothing h = cc

  -- Every step of a read, and what its last one leaves.
  read_now-Reads :
      (ctx : CmdContext) (size : ℕ) (s : Engine x)
      → Fresh s
      → CanRead x s.disk ctx.start_lba ctx.nr_lbas
      → Reads disk_byte dev.geometry ctx s (read_now x dev u thread ctx size s)
        × Keeps (read_now x dev u thread ctx size s)
  unfolding read_now
  read_now-Reads ctx size s fresh can =
      elim (Bool-cases ((allocate_device_buffer x dev size s.buffers).0 == 0)) [
        | inl null ↦ rw null (read_fails (λ k. refl), fresh)
        | inr got ↦ rw got (elim (Bool-cases (x.accepts s.disk (one_chunk ctx))) [
          | inr refused ↦ rw refused (read_fails (λ k. refl), fresh)
          | inl taken ↦ rw taken (
            read_returns (λ k. refl)
                (λ c.
                  ap (λ b. get_bytes b ctx.offset ctx.nr_bytes)
                    (executed_read-blocks x dev u thread lawful s.disk ctx ctx _ c can refl refl)
                  ∙ get_bytes-bytes_at (disk_byte s) (ctx.start_lba * n) (ctx.nr_lbas * n)
                      ctx.offset ctx.nr_bytes c.inside),
            fresh,
          )
        ])
      ]

  -- A result, by its constructors.
  run_cases :
      {A : Type 0} (r : Run (Engine x) A)
      → ((a : A) × (s : Engine x) × (r ≡ ok a s)) ⊎ ((e : Error) × (s : Engine x) × (r ≡ err e s))
  run_cases (ok a s) = inl (a, s, refl)
  run_cases (err e s) = inr (e, s, refl)

  Reads-ok :
      (ctx : CmdContext) (s t : Engine x) (bs : List ℕ)
      → Reads disk_byte dev.geometry ctx s (ok bs t)
      → ((k : ℕ) → disk_byte t k ≡ disk_byte s k)
        × (IsCommand dev.geometry ctx
            → bs ≡ bytes_at (disk_byte s) (first_byte dev.geometry ctx) ctx.nr_bytes)
  Reads-ok ctx s t bs (read_returns kept right) = (kept, right)

  Reads-err :
      (ctx : CmdContext) (s t : Engine x) (e : Error)
      → Reads disk_byte dev.geometry ctx s (err e t)
      → (k : ℕ) → disk_byte t k ≡ disk_byte s k
  Reads-err ctx s t e (read_fails kept) = kept

  -- The part of a read that finds nothing prefetched.
  abbrev missed : CmdContext → ℕ → Engine x → Run (Engine x) (List ℕ)
  missed ctx size s = elim (read_now x dev u thread ctx size s) [
    | ok bs t ↦ ok bs (prefetch_next x dev u thread ctx size t)
    | err e t ↦ err e t
  ]

  missed-Reads :
      (ctx : CmdContext) (size : ℕ) (s t : Engine x)
      → t.disk ≡ s.disk
      → Fresh t
      → CanRead x s.disk ctx.start_lba ctx.nr_lbas
      → Reads disk_byte dev.geometry ctx s (missed ctx size t) × Keeps (missed ctx size t)
  missed-Reads ctx size s t same fresh can =
      let (reads, keeps) =
        read_now-Reads ctx size t fresh
          (subst (λ d. CanRead x d ctx.start_lba ctx.nr_lbas) (sym same) can) in
      elim (run_cases (read_now x dev u thread ctx size t)) [
        | inl (bs, t', f) ↦
            let (kept, right) = Reads-ok ctx t t' bs (rw f at reads) in
            rw (f, missed)
              (
                read_returns
                    (λ k.
                      ap (λ d. x.byte d k) (prefetch_next-disk x dev u thread lawful ctx size t')
                      ∙ kept k
                      ∙ ap (λ d. x.byte d k) same)
                    (λ c.
                      right c
                      ∙ ap (λ d. bytes_at (x.byte d) (first_byte dev.geometry ctx) ctx.nr_bytes)
                          same),
                prefetch_next-IsFresh ctx size t',
              )
        | inr (e, t', f) ↦
            rw (f, missed)
              (
                read_fails
                    (λ k. Reads-err ctx t t' e (rw f at reads) k ∙ ap (λ d. x.byte d k) same),
                rw f at keeps,
              )
      ]

  -- Over a namespace that reads and writes as documented, with a thread whose active prefetch holds
  -- the bytes of its blocks if these can be read: when no read of any of the blocks fails, then,
  -- for a command of 1 to 65536 blocks below block 2^64 and fewer than 2^64 bytes, whose bytes lie
  -- in its blocks, a read of the prefetching engine either throws or returns the bytes of the
  -- command, whether they were prefetched or not. It changes no byte, and leaves such a prefetch.
  pub prefetch_read-Reads :
      (ctx : CmdContext) (s : Engine x)
      → IsFresh x dev u thread lawful s
      → CanRead x s.disk ctx.start_lba ctx.nr_lbas
      → Reads disk_byte dev.geometry ctx s (prefetch_read x dev u thread ctx s)
        × Keeps (prefetch_read x dev u thread ctx s)
  unfolding prefetch_read
  prefetch_read-Reads ctx s fresh can = elim (Option-cases (open_queue x dev u thread s.queues)) [
    | inl f ↦ rw (f, prefetch_read) (read_fails (λ k. refl), fresh)
    | inr (queues, f) ↦
        let ready : Engine x = record s { queues = queues } in
        rw (f, prefetch_read)
          (elim (Option-cases (prefetched x dev u thread ctx ready)) [
            | inl e ↦ rw e (
                missed-Reads ctx (mul64 ctx.nr_lbas n) s (drain_prefetch x dev u thread ready)
                  (drain_prefetch-disk x dev u thread lawful ready) (drain_prefetch-IsFresh ready)
                  can)
            | inr (bs, e) ↦
                rw e (elim (Bool-cases ((prefetch_of x dev u thread ready).buffer == 0)) [
                  | inl null ↦ rw null (read_fails (λ k. refl), fresh)
                  | inr got ↦ rw got (
                    read_returns
                        (λ k.
                          ap (λ d. x.byte d k)
                            (prefetch_next-disk x dev u thread lawful ctx (mul64 ctx.nr_lbas n)
                                (drain_prefetch x dev u thread ready)
                              ∙ drain_prefetch-disk x dev u thread lawful ready))
                        (prefetched-bytes ctx ready bs fresh e can),
                    prefetch_next-IsFresh ctx (mul64 ctx.nr_lbas n)
                        (drain_prefetch x dev u thread ready),
                  )
                ])
          ])
  ]
