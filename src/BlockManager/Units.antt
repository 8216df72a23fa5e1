-- ===== src/BlockManager/Units.antt =====
-- The sizes of the temporary files' blocks are multiples of eight LBAs (32 KiB of 4 KiB blocks). In
-- an area that is one too, an allocation has exactly the size that was asked for; elsewhere it may
-- be smaller, since AllocateBlock does not compare the block that it finds with the request.
use nvmefs.Prelude.{
  ℕ, ◌+◌, ◌-◌, ◌*◌, ◌%◌, ◌^◌, ◌≡◌, refl, ◌⊎◌, Bool, true, false, List, [], ◌∷◌, some, get_or, arith,
  ◌<◌, ◌≤◌, sub64_exact, add64, Run, ok, err, final, inl, inr, Bool-cases, Option-cases, All, ltb,
  no_free_block,
}
use nvmefs.BlockManager.Defs.{
  TemporaryBlock, Manager, get_free_list_index, find_block, update_block, split_block, take_block,
  count_bytes, allocate_block, first_free, coalesce_free_blocks, coalesce_behind, merge_around,
  free_block,
}
use nvmefs.BlockManager.Cover.{Covers, Covers-found, Covers-le}
use nvmefs.BlockManager.Invariant.{IsValid, IsUsed}
use nvmefs.BlockManager.Lists.{first_free_at}
use nvmefs.BlockManager.Allocate.{
  find-update_self, Allocated, Outcome, exhausted, allocated, allocate_block-Outcome,
}

abbrev pub IsUnit : TemporaryBlock → Type 0
IsUnit b = b.lba_count % 8 ≡ 0

abbrev pub AreUnits : Manager → Type 0
AreUnits m = All IsUnit m.blocks

module _ (x : ℕ) where
  found-IsUnit :
      (bs : List TemporaryBlock) (b : TemporaryBlock)
      → All IsUnit bs
      → find_block x bs ≡ some b
      → IsUnit b
  unfolding find_block
  found-IsUnit [] b h e = cc
  found-IsUnit (c ∷ bs) b h e = ground (arith, found-IsUnit bs b h.1)

  update_units :
      (free : Bool) (bs : List TemporaryBlock)
      → All IsUnit bs
      → All IsUnit (update_block x (λ b. record b { is_free = free }) bs)
  unfolding update_block
  update_units free [] h = tt
  update_units free (c ∷ bs) h = ground (arith, update_units free bs h.1)

  split_units :
      (fresh count lo hi : ℕ) (bs : List TemporaryBlock) (b : TemporaryBlock)
      → All IsUnit bs
      → Covers lo hi bs
      → hi < 2 ^ 64
      → count % 8 ≡ 0
      → find_block x bs ≡ some b
      → count < b.lba_count
      → All IsUnit (split_block x fresh count bs)
  unfolding find_block split_block
  split_units fresh count lo hi [] b h v k u e p = tt
  split_units fresh count lo hi (c ∷ bs) b h v k u e p =
      let end = Covers-le (lo + c.lba_count) hi bs v.2 in
      let left : (count < c.lba_count) → (c.lba_count - count) % 8 ≡ 0 = λ q. omega arith in
      ground (
        arith,
        left,
        sub64_exact c.lba_count count,
        split_units fresh count (lo + c.lba_count) hi bs b h.1 v.2,
      )

  behind_units :
      (p : TemporaryBlock) (bs : List TemporaryBlock)
      → All IsUnit (p ∷ bs)
      → All IsUnit (coalesce_behind x p bs).0
  unfolding coalesce_behind merge_around add64
  behind_units p [] h = h
  behind_units p (c ∷ []) h =
      let left : ((c.lba_count + p.lba_count) % 2 ^ 64) % 8 ≡ 0 = omega arith in ground arith
  behind_units p (c ∷ n ∷ after) h =
      let left : ((c.lba_count + p.lba_count) % 2 ^ 64) % 8 ≡ 0 = omega arith in
      let right : ((c.lba_count + n.lba_count) % 2 ^ 64) % 8 ≡ 0 = omega arith in
      let both : ((c.lba_count + (p.lba_count + n.lba_count) % 2 ^ 64) % 2 ^ 64) % 8 ≡ 0 =
        omega arith in
      ground (arith, left, right, both, behind_units c (n ∷ after) h.1)

  pub coalesce_units :
      (bs : List TemporaryBlock) → All IsUnit bs → All IsUnit (coalesce_free_blocks x bs).0
  unfolding coalesce_free_blocks merge_around add64
  coalesce_units [] h = tt
  coalesce_units (c ∷ []) h = ground (arith, behind_units c [] h)
  coalesce_units (c ∷ n ∷ after) h =
      let right : ((c.lba_count + n.lba_count) % 2 ^ 64) % 8 ≡ 0 = omega arith in
      ground (arith, right, behind_units c (n ∷ after) h)

module _ (m : Manager) (v : IsValid m) (units : AreUnits m) where
  take_units :
      (count i x : ℕ) (b : TemporaryBlock)
      → find_block x m.blocks ≡ some b
      → count % 8 ≡ 0
      → AreUnits (count_bytes count (take_block count i x b m).1)
  unfolding take_block count_bytes
  take_units count i x b e u = elim (Bool-cases (ltb count b.lba_count)) [
    | inl larger ↦
        rw larger
          (split_units x m.next_name count _ _ m.blocks b units v.covers v.range u e (ground arith))
    | inr fits ↦ rw fits (update_units x false m.blocks units)
  ]

  allocate_units : (count : ℕ) → count % 8 ≡ 0 → AreUnits (final (allocate_block count m))
  unfolding allocate_block
  allocate_units count u =
      elim (Option-cases (first_free (get_free_list_index count) 0 m.blocks_free)) [
        | inl e ↦ rw (e, allocate_block) units
        | inr ((i, x), e) ↦
            rw (e, allocate_block)
              (elim (Option-cases (find_block x m.blocks)) [
                | inl f ↦ rw f units
                | inr (b, f) ↦ rw f (take_units count i x b f u)
              ])
      ]

  pub free_units : (x : ℕ) → AreUnits (final (free_block x m))
  unfolding free_block
  free_units x = elim (Option-cases (find_block x m.blocks)) [
    | inl e ↦ rw (e, free_block) units
    | inr (b, e) ↦
        rw (e, free_block)
          (elim (Option-cases (
            find_block x
              (coalesce_free_blocks x
                (update_block x (λ c. record c { is_free = true }) m.blocks)).0)) [
                  | inl f ↦ rw f units
                  | inr (c, f) ↦ rw f (coalesce_units x _ (update_units x true m.blocks units))
                ])
  ]

-- The sizes of free list `i`, for requests of up to 64 LBAs.
index_range :
    (count : ℕ)
    → 0 < count
    → (8 * get_free_list_index count < count)
      × (count ≤ 64 → count ≤ 8 * get_free_list_index count + 8)
unfolding get_free_list_index
index_range count p = (ground arith, λ h. ground arith)

-- Between two multiples of eight, the free list of the larger has no smaller block.
same_list :
    (a b : ℕ)
    → a % 8 ≡ 0
    → b % 8 ≡ 0
    → b ≤ 64
    → 0 < a
    → a < b
    → get_free_list_index b ≤ get_free_list_index a
    → ⊥
same_list a b h k le pos lt i =
    omega (arith, (index_range a pos).0, (index_range b (omega arith)).1 le)

-- The result of an allocation that is known to be of a unit size.
exact_size :
    (m m' : Manager) (count y : ℕ)
    → count % 8 ≡ 0
    → count ≤ 64
    → AreUnits m'
    → Allocated count m m' y
    → (b : TemporaryBlock) × IsUsed m' y b × (b.lba_count ≡ count)
exact_size m m' count y u le units a =
    let (lo, pos, hi) = Covers-found y _ _ m'.blocks a.block a.valid.covers a.used.found in
    let unit = found-IsUnit y m'.blocks a.block units a.used.found in
    elim a.size [
      | inl e ↦ (a.block, a.used, e)
      | inr (smaller, list) ↦ absurd (same_list a.block.lba_count count unit u le pos smaller list)
    ]

-- On a valid allocator whose blocks are all whole units of 8 LBAs, and for a count of one to eight
-- units, AllocateBlock gives a block of exactly that count that is in use from then on, and all
-- blocks are whole units again; or it throws and changes nothing.
pub allocate_block-exact :
    (m : Manager) (count : ℕ)
    → IsValid m
    → AreUnits m
    → 0 < count
    → count ≤ 64
    → count % 8 ≡ 0
    → (allocate_block count m ≡ err no_free_block m)
      ⊎ ((y : ℕ) × (m' : Manager) × (b : TemporaryBlock) × (allocate_block count m ≡ ok y m')
          × IsUsed m' y b
          × (b.lba_count ≡ count)
          × AreUnits m')
allocate_block-exact m count v units pos le u =
    cases (allocate_block count m) (allocate_block-Outcome count m v pos)
      (allocate_units m v units count u)
  where
    cases :
        (r : Run Manager ℕ)
        → Outcome count m r
        → AreUnits (final r)
        → (r ≡ err no_free_block m)
          ⊎ ((y : ℕ) × (m' : Manager) × (b : TemporaryBlock) × (r ≡ ok y m')
              × IsUsed m' y b
              × (b.lba_count ≡ count)
              × AreUnits m')
    cases r (exhausted e) w = inl refl
    cases r (allocated {y} {m'} a) w =
        let (b, used, e) = exact_size m m' count y u le w a in inr (y, m', b, refl, used, e, w)

-- On any allocator: when the free list of the count's own size has at its top a block that is smaller
-- than the count, AllocateBlock returns that block whole, smaller than asked for.
pub allocate_block-undersized :
    (m : Manager) (count x : ℕ) (xs : List ℕ) (b : TemporaryBlock)
    → get_or m.blocks_free (get_free_list_index count) [] ≡ x ∷ xs
    → find_block x m.blocks ≡ some b
    → b.lba_count < count
    → (m' : Manager) × (allocate_block count m ≡ ok x m')
      × (find_block x m'.blocks ≡ some (record b { is_free = false }))
unfolding allocate_block take_block count_bytes
allocate_block-undersized m count x xs b e found small =
    let i = get_free_list_index count in
    let whole : ltb count b.lba_count ≡ false = ground arith in
    (
      count_bytes count (take_block count i x b m).1,
      rw (first_free_at i 0 i x xs m.blocks_free (omega arith) e, allocate_block)
          (rw found (rw whole)),
      rw whole (find-update_self x false m.blocks b found),
    )
