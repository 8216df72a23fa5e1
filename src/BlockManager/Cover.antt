-- ===== src/BlockManager/Cover.antt =====
-- The blocks cover the temporary area without gap or overlap, and no two neighbours are both free.
use nvmefs.Prelude.{
  ℕ, ◌+◌, ◌-◌, ◌^◌, ◌≡◌, refl, Bool, true, false, ◌&&◌, List, [], ◌∷◌, some, ◌==◌, arith, ◌<◌, ◌≤◌,
  add64_exact, sub64_exact,
}
use nvmefs.BlockManager.Defs.{
  TemporaryBlock, find_block, update_block, split_block, merge_around, coalesce_behind,
  coalesce_free_blocks,
}

-- Each block starts where the one before it ends, and none is empty.
abbrev pub Covers : ℕ → ℕ → List TemporaryBlock → Type 0
Covers lo hi [] = lo ≡ hi
Covers lo hi (b ∷ bs) = (b.start_lba ≡ lo) × (0 < b.lba_count) × Covers (lo + b.lba_count) hi bs

-- `free` says whether the block before the list is free.
abbrev pub IsMerged : Bool → List TemporaryBlock → Type 0
IsMerged free [] = Unit {0}
IsMerged free (b ∷ bs) = ((free && b.is_free) ≡ false) × IsMerged b.is_free bs

pub Covers-le : (lo hi : ℕ) (bs : List TemporaryBlock) → Covers lo hi bs → lo ≤ hi
Covers-le lo hi [] h = omega arith
Covers-le lo hi (b ∷ bs) h = omega (arith, Covers-le (lo + b.lba_count) hi bs h.2)

module _ (x : ℕ) where
  pub Covers-found :
      (lo hi : ℕ) (bs : List TemporaryBlock) (b : TemporaryBlock)
      → Covers lo hi bs
      → find_block x bs ≡ some b
      → (lo ≤ b.start_lba) × (0 < b.lba_count) × (b.start_lba + b.lba_count ≤ hi)
  unfolding find_block
  Covers-found lo hi [] b h e = absurd (cc)
  Covers-found lo hi (c ∷ bs) b h e =
      ground
        (arith, Covers-le (lo + c.lba_count) hi bs h.2, Covers-found (lo + c.lba_count) hi bs b h.2)

  pub Covers-update :
      (free : Bool) (lo hi : ℕ) (bs : List TemporaryBlock)
      → Covers lo hi bs
      → Covers lo hi (update_block x (λ b. record b { is_free = free }) bs)
  unfolding update_block
  Covers-update free lo hi [] h = h
  Covers-update free lo hi (c ∷ bs) h =
      ground (arith, Covers-update free (lo + c.lba_count) hi bs h.2)

  pub Covers-split :
      (fresh count lo hi : ℕ) (bs : List TemporaryBlock) (b : TemporaryBlock)
      → Covers lo hi bs
      → hi < 2 ^ 64
      → find_block x bs ≡ some b
      → 0 < count
      → count < b.lba_count
      → Covers lo hi (split_block x fresh count bs)
  unfolding find_block split_block
  Covers-split fresh count lo hi [] b h k e p q = absurd (cc)
  Covers-split fresh count lo hi (c ∷ bs) b h k e p q =
      let end = Covers-le (lo + c.lba_count) hi bs h.2 in
      let same : (c.lba_count ≡ b.lba_count)
          → lo + count + (c.lba_count - count) ≡ lo + c.lba_count =
        λ r. omega arith in
      ground (
        arith,
        same,
        add64_exact c.start_lba count,
        sub64_exact c.lba_count count,
        Covers-split fresh count (lo + c.lba_count) hi bs b h.2,
      )

  Covers-behind :
      (lo hi : ℕ) (p : TemporaryBlock) (bs : List TemporaryBlock)
      → Covers lo hi (p ∷ bs)
      → hi < 2 ^ 64
      → Covers lo hi (coalesce_behind x p bs).0
  unfolding coalesce_behind merge_around
  Covers-behind lo hi p [] h k = h
  Covers-behind lo hi p (c ∷ []) h k = ground (arith, add64_exact c.lba_count p.lba_count)
  Covers-behind lo hi p (c ∷ n ∷ after) h k =
      let end = Covers-le (lo + p.lba_count + c.lba_count + n.lba_count) hi after h.2.2.2 in
      let three : lo + (c.lba_count + (p.lba_count + n.lba_count))
          ≡ lo + p.lba_count + c.lba_count + n.lba_count =
        omega arith in
      let left : lo + (c.lba_count + p.lba_count) ≡ lo + p.lba_count + c.lba_count = omega arith in
      let right : lo + p.lba_count + (c.lba_count + n.lba_count)
          ≡ lo + p.lba_count + c.lba_count + n.lba_count =
        omega arith in
      ground (
        arith,
        three,
        left,
        right,
        add64_exact c.lba_count p.lba_count,
        add64_exact c.lba_count n.lba_count,
        add64_exact p.lba_count n.lba_count,
        add64_exact c.lba_count (p.lba_count + n.lba_count),
        Covers-behind (lo + p.lba_count) hi c (n ∷ after) h.2,
      )

  pub Covers-coalesce :
      (lo hi : ℕ) (bs : List TemporaryBlock)
      → Covers lo hi bs
      → hi < 2 ^ 64
      → Covers lo hi (coalesce_free_blocks x bs).0
  unfolding coalesce_free_blocks merge_around
  Covers-coalesce lo hi [] h k = h
  Covers-coalesce lo hi (c ∷ []) h k = ground (arith, Covers-behind lo hi c [])
  Covers-coalesce lo hi (c ∷ n ∷ after) h k =
      let end = Covers-le (lo + c.lba_count + n.lba_count) hi after h.2.2 in
      let right : lo + (c.lba_count + n.lba_count) ≡ lo + c.lba_count + n.lba_count = omega arith in
      ground (arith, right, add64_exact c.lba_count n.lba_count, Covers-behind lo hi c (n ∷ after))

  IsMerged-weaken : (bs : List TemporaryBlock) → IsMerged true bs → IsMerged false bs
  IsMerged-weaken [] h = tt
  IsMerged-weaken (b ∷ bs) h = (refl, h.1)

  pub IsMerged-update :
      (free : Bool) (bs : List TemporaryBlock)
      → IsMerged free bs
      → IsMerged free (update_block x (λ b. record b { is_free = false }) bs)
  unfolding update_block
  IsMerged-update free [] h = tt
  IsMerged-update free (c ∷ bs) h =
      ground (arith, IsMerged-update c.is_free bs h.1, IsMerged-weaken bs)

  pub IsMerged-split :
      (fresh count : ℕ) (free : Bool) (bs : List TemporaryBlock) (b : TemporaryBlock)
      → IsMerged free bs
      → find_block x bs ≡ some b
      → b.is_free ≡ true
      → IsMerged free (split_block x fresh count bs)
  unfolding find_block split_block
  IsMerged-split fresh count free [] b h e f = tt
  IsMerged-split fresh count free (c ∷ bs) b h e f =
      ground (arith, IsMerged-split fresh count c.is_free bs b h.1)

  IsMerged-behind :
      (free : Bool) (p : TemporaryBlock) (bs : List TemporaryBlock)
      → (p.name == x) ≡ false
      → IsMerged free (p ∷ bs)
      → IsMerged free (coalesce_behind x p (update_block x (λ b. record b { is_free = true }) bs)).0
  unfolding update_block coalesce_behind merge_around
  IsMerged-behind free p [] h m = m
  IsMerged-behind free p (c ∷ []) h m = ground arith
  IsMerged-behind free p (c ∷ n ∷ after) h m =
      ground (arith, IsMerged-behind p.is_free c (n ∷ after), IsMerged-weaken after)

  -- Freeing a block and coalescing leaves no two free neighbours.
  pub IsMerged-coalesce :
      (bs : List TemporaryBlock)
      → IsMerged false bs
      → IsMerged false
          (coalesce_free_blocks x (update_block x (λ b. record b { is_free = true }) bs)).0
  unfolding update_block coalesce_free_blocks merge_around
  IsMerged-coalesce [] m = tt
  IsMerged-coalesce (c ∷ []) m = ground (arith, IsMerged-behind false c [])
  IsMerged-coalesce (c ∷ n ∷ after) m =
      ground (arith, IsMerged-behind false c (n ∷ after), IsMerged-weaken after)
