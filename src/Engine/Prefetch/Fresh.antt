-- ===== src/Engine/Prefetch/Fresh.antt =====
-- What a thread has prefetched, as the namespace holds it.
use nvmefs.Prelude.{
  ℕ, zero, suc, ◌*◌, ◌≡◌, refl, sym, ◌⊎◌, inl, inr, true, false, List, [], ◌∷◌, get_or, set,
  bytes_at, sub64, sub64_exact, arith, Bool-cases, Option-cases, subst,
}
use nvmefs.Device.{CmdContext, IsCommand}
use nvmefs.Engine.Prefetch.{
  next_command, executed_read, prefetch_of, drain_prefetch, prefetch_next, one_chunk,
}
use nvmefs.Engine.Sync.Laws.{read_blocks}
use nvmefs.Engine.Xnvme.{
  Xnvme, IsLawful, CanRead, NvmeDevice, Engine, PrefetchState, no_prefetch, io_words,
}
use nvmefs.PathHandler.Defs.{StringUtil}

-- An entry of a table after it is set, or out of the table's range.
get_or-set :
    {A : Type 0} (l : List A) (i : ℕ) (v d : A)
    → (get_or (set l i v) i d ≡ v) ⊎ (get_or (set l i v) i d ≡ d)
get_or-set [] i v d = inr refl
get_or-set (a ∷ l) zero v d = inl refl
get_or-set (a ∷ l) (suc i) v d = get_or-set l i v d

module _ (x : Xnvme) (dev : NvmeDevice) (u : StringUtil) (thread : ℕ)
    (lawful : IsLawful dev.geometry x) where
  abbrev n : ℕ
  n = dev.geometry.lba_size

  -- An active prefetch holds the bytes of its blocks, if they are those of a command that can be read.
  abbrev pub IsCurrent : x.Disk → PrefetchState → Type 0
  IsCurrent d p =
      (ctx : CmdContext)
      → IsCommand dev.geometry ctx
      → CanRead x d ctx.start_lba ctx.nr_lbas
      → p.active ≡ true
      → ctx.start_lba ≡ p.expected_lba
      → ctx.nr_lbas ≡ p.expected_nr_lbas
      → p.content ≡ bytes_at (x.byte d) (ctx.start_lba * n) (ctx.nr_lbas * n)

  abbrev pub IsFresh : Engine x → Type 0
  IsFresh s = IsCurrent s.disk (prefetch_of x dev u thread s)

  inactive-IsCurrent : (d : x.Disk) (p : PrefetchState) → p.active ≡ false → IsCurrent d p
  inactive-IsCurrent d p off ctx c can on = absurd cc

  set-IsCurrent :
      (d : x.Disk) (l : List PrefetchState) (v : PrefetchState)
      → IsCurrent d v
      → IsCurrent d (get_or (set l thread v) thread no_prefetch)
  set-IsCurrent d l v h = elim (get_or-set l thread v no_prefetch) [
    | inl e ↦ subst (IsCurrent d) (sym e) h
    | inr e ↦ subst (IsCurrent d) (sym e) (inactive-IsCurrent d no_prefetch refl)
  ]

  pub drain_prefetch-disk : (s : Engine x) → (drain_prefetch x dev u thread s).disk ≡ s.disk
  unfolding drain_prefetch
  drain_prefetch-disk s = elim (Bool-cases (prefetch_of x dev u thread s).active) [
    | inl on ↦ rw on refl
    | inr off ↦ rw off refl
  ]

  pub drain_prefetch-IsCurrent :
      (d : x.Disk) (s : Engine x)
      → IsCurrent d (prefetch_of x dev u thread (drain_prefetch x dev u thread s))
  unfolding drain_prefetch
  drain_prefetch-IsCurrent d s = elim (Bool-cases (prefetch_of x dev u thread s).active) [
    | inl on ↦ rw on (set-IsCurrent d s.prefetches _ (λ ctx c can up start count. absurd cc))
    | inr off ↦ rw off (inactive-IsCurrent d (prefetch_of x dev u thread s) off)
  ]

  -- A read command fills its buffer with its blocks.
  pub executed_read-blocks :
      (d : x.Disk) (cmd ctx : CmdContext) (fresh : List ℕ)
      → IsCommand dev.geometry ctx
      → CanRead x d ctx.start_lba ctx.nr_lbas
      → ctx.start_lba ≡ cmd.start_lba
      → ctx.nr_lbas ≡ cmd.nr_lbas
      → executed_read x dev u thread d cmd fresh
        ≡ bytes_at (x.byte d) (ctx.start_lba * n) (ctx.nr_lbas * n)
  unfolding executed_read
  executed_read-blocks d cmd ctx fresh c can start count =
      let one = sub64_exact ctx.nr_lbas 1 c.some_blocks (omega (arith, c.few_blocks)) in
      elim (Option-cases
        (x.nvm_read d (io_words x dev u cmd 0 false) cmd.start_lba (sub64 cmd.nr_lbas 1))) [
          | inl e ↦ absurd (
              can (io_words x dev u cmd 0 false) ctx.start_lba (sub64 ctx.nr_lbas 1) (omega arith)
                (omega (arith, one, c.some_blocks)) (rw (start, count) e))
          | inr (bs, e) ↦
              rw (e, executed_read)
                (read_blocks x dev u lawful ctx d (io_words x dev u cmd 0 false) bs c
                  (rw (start, count) e))
        ]

  pub prefetch_next-disk :
      (ctx : CmdContext) (size : ℕ) (s : Engine x)
      → (prefetch_next x dev u thread ctx size s).disk ≡ s.disk
  unfolding prefetch_next
  prefetch_next-disk ctx size s =
      elim (Bool-cases (x.accepts s.disk (one_chunk (next_command ctx)))) [
        | inl taken ↦ rw taken refl
        | inr refused ↦ rw refused refl
      ]

  pub prefetch_next-IsCurrent :
      (ctx : CmdContext) (size : ℕ) (s : Engine x)
      → IsCurrent s.disk (prefetch_of x dev u thread (prefetch_next x dev u thread ctx size s))
  unfolding prefetch_next
  prefetch_next-IsCurrent ctx size s =
      elim (Bool-cases (x.accepts s.disk (one_chunk (next_command ctx)))) [
        | inl taken ↦ rw taken (
            set-IsCurrent s.disk s.prefetches _ (λ cmd c can on start count.
              executed_read-blocks s.disk (next_command ctx) cmd _ c can start count))
        | inr refused ↦
            rw refused (set-IsCurrent s.disk s.prefetches _ (λ cmd c can up start count. absurd cc))
      ]
