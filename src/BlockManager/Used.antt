-- ===== src/BlockManager/Used.antt =====
-- How often a name is that of a block in use, through the operations of the allocator.
use nvmefs.Prelude.{
  ℕ, ◌+◌, ◌⊎◌, ◌<◌, ◌≤◌, ◌≡◌, refl, true, false, ◌&&◌, not, List, [], ◌∷◌, some, ◌==◌, arith,
  Bool-cases, inl, inr,
}
use nvmefs.BlockManager.Defs.{
  TemporaryBlock, Manager, find_block, update_block, split_block, merge_around, coalesce_behind,
  coalesce_free_blocks, set_free,
}
use nvmefs.BlockManager.Counts.{name_count, one_if, find_block_counted}
use nvmefs.BlockManager.Invariant.{IsValid, IsUsed}

unfoldable pub used_count : ℕ → List TemporaryBlock → ℕ
used_count x [] = 0
used_count x (b ∷ bs) = one_if (b.name == x && not b.is_free) + used_count x bs

module _ (x y : ℕ) where
  pub used-take :
      (bs : List TemporaryBlock) (b : TemporaryBlock)
      → find_block y bs ≡ some b
      → b.is_free ≡ true
      → used_count x (update_block y (set_free false) bs) ≡ one_if (y == x) + used_count x bs
  unfolding find_block update_block used_count
  used-take [] b e f = cc
  used-take (c ∷ bs) b e f = ground (arith, used-take bs b)

  pub used-release :
      (bs : List TemporaryBlock) (b : TemporaryBlock)
      → find_block y bs ≡ some b
      → b.is_free ≡ false
      → one_if (y == x) + used_count x (update_block y (set_free true) bs) ≡ used_count x bs
  unfolding find_block update_block used_count
  used-release [] b e f = cc
  used-release (c ∷ bs) b e f = ground (arith, used-release bs b)

  pub used-split :
      (fresh count : ℕ) (bs : List TemporaryBlock) (b : TemporaryBlock)
      → find_block y bs ≡ some b
      → b.is_free ≡ true
      → used_count x (split_block y fresh count bs) ≡ one_if (fresh == x) + used_count x bs
  unfolding find_block split_block used_count
  used-split fresh count [] b e f = cc
  used-split fresh count (c ∷ bs) b e f = ground (arith, used-split fresh count bs b)

  used-behind :
      (p : TemporaryBlock) (bs : List TemporaryBlock)
      → used_count x (coalesce_behind y p bs).0 ≡ used_count x (p ∷ bs)
  unfolding find_block coalesce_behind merge_around used_count
  used-behind p [] = refl
  used-behind p (b ∷ []) = ground arith
  used-behind p (b ∷ n ∷ after) = ground (arith, used-behind b (n ∷ after))

  pub used-coalesce :
      (bs : List TemporaryBlock) → used_count x (coalesce_free_blocks y bs).0 ≡ used_count x bs
  unfolding coalesce_free_blocks merge_around used_count
  used-coalesce [] = refl
  used-coalesce (b ∷ []) = ground (arith, used-behind b [])
  used-coalesce (b ∷ n ∷ after) = ground (arith, used-behind b (n ∷ after))

pub used-le-name : (x : ℕ) (bs : List TemporaryBlock) → used_count x bs ≤ name_count x bs
unfolding used_count
used-le-name x [] = omega arith
used-le-name x (b ∷ bs) = ground (arith, used-le-name x bs)

free_uncounted :
    (x : ℕ) (bs : List TemporaryBlock) (b : TemporaryBlock)
    → find_block x bs ≡ some b
    → b.is_free ≡ true
    → used_count x bs < name_count x bs
unfolding used_count find_block
free_uncounted x [] b e f = cc
free_uncounted x (c ∷ bs) b e f = ground (arith, used-le-name x bs, free_uncounted x bs b)

pub used_counted :
    (x : ℕ) (bs : List TemporaryBlock) (b : TemporaryBlock)
    → find_block x bs ≡ some b
    → b.is_free ≡ false
    → 0 < used_count x bs
unfolding used_count find_block
used_counted x [] b e f = cc
used_counted x (c ∷ bs) b e f = ground (arith, used_counted x bs b)

module _ (m : Manager) (v : IsValid m) where
  -- A name that is counted is that of a block in use.
  pub IsUsed-found : (x : ℕ) → 0 < used_count x m.blocks → (b : TemporaryBlock) × IsUsed m x b
  IsUsed-found x h =
      let (b, e) = find_block_counted x m.blocks (omega (arith, used-le-name x m.blocks)) in
      (b, record { found = e; in_use = in_use b e (Bool-cases b.is_free) })
    where
      in_use :
          (b : TemporaryBlock)
          → find_block x m.blocks ≡ some b
          → (b.is_free ≡ true) ⊎ (b.is_free ≡ false)
          → b.is_free ≡ false
      in_use b e (inl free) = absurd (omega (arith, free_uncounted x m.blocks b e free, v.unique x))
      in_use b e (inr used) = used
