-- ===== src/BlockManager/Coalesce.antt =====
-- Coalescing removes free neighbours only, and keeps every other block.
use nvmefs.Prelude.{
  ℕ, ◌+◌, ◌≡◌, refl, true, false, List, [], ◌∷◌, none, some, ◌==◌, arith, All, Option-cases, inl,
  inr,
}
use nvmefs.BlockManager.Defs.{
  TemporaryBlock, find_block, merge_around, coalesce_behind, coalesce_free_blocks,
}
use nvmefs.BlockManager.Counts.{weight, free_count, name_count}

module _ (x y i : ℕ) where
  free_count-behind :
      (p : TemporaryBlock) (bs : List TemporaryBlock) (b m : TemporaryBlock)
      → (p.name == x) ≡ false
      → find_block x bs ≡ some b
      → find_block x (coalesce_behind x p bs).0 ≡ some m
      → free_count y i (coalesce_behind x p bs).0
          + free_count y i (coalesce_behind x p bs).1
          + weight y i b
        ≡ free_count y i (p ∷ bs) + weight y i m
  unfolding find_block coalesce_behind merge_around
  free_count-behind p [] b m h e f = cc
  free_count-behind p (c ∷ []) b m h e f = ground arith
  free_count-behind p (c ∷ n ∷ after) b m h e f =
      ground (arith, free_count-behind c (n ∷ after) b m)

  pub free_count-coalesce :
      (bs : List TemporaryBlock) (b m : TemporaryBlock)
      → find_block x bs ≡ some b
      → find_block x (coalesce_free_blocks x bs).0 ≡ some m
      → free_count y i (coalesce_free_blocks x bs).0
          + free_count y i (coalesce_free_blocks x bs).1
          + weight y i b
        ≡ free_count y i bs + weight y i m
  unfolding find_block coalesce_free_blocks merge_around
  free_count-coalesce [] b m e f = cc
  free_count-coalesce (c ∷ []) b m e f = ground (arith, free_count-behind c [] b m)
  free_count-coalesce (c ∷ n ∷ after) b m e f = ground (arith, free_count-behind c (n ∷ after) b m)

  name_count-behind :
      (p : TemporaryBlock) (bs : List TemporaryBlock)
      → name_count y (coalesce_behind x p bs).0 + name_count y (coalesce_behind x p bs).1
        ≡ name_count y (p ∷ bs)
  unfolding coalesce_behind merge_around
  name_count-behind p [] = ground arith
  name_count-behind p (c ∷ []) = ground (arith, name_count-behind c [])
  name_count-behind p (c ∷ n ∷ after) = ground (arith, name_count-behind c (n ∷ after))

  pub name_count-coalesce :
      (bs : List TemporaryBlock)
      → name_count y (coalesce_free_blocks x bs).0 + name_count y (coalesce_free_blocks x bs).1
        ≡ name_count y bs
  unfolding coalesce_free_blocks merge_around
  name_count-coalesce [] = refl
  name_count-coalesce (c ∷ []) = ground (arith, name_count-behind c [])
  name_count-coalesce (c ∷ n ∷ after) = ground (arith, name_count-behind c (n ∷ after))

module _ (x : ℕ) where
  lost-behind :
      (p : TemporaryBlock) (bs : List TemporaryBlock) (b : TemporaryBlock)
      → (p.name == x) ≡ false
      → find_block x bs ≡ some b
      → ¬ (find_block x (coalesce_behind x p bs).0 ≡ none)
  unfolding find_block coalesce_behind merge_around
  lost-behind p [] b h e f = cc
  lost-behind p (c ∷ []) b h e f = ground arith
  lost-behind p (c ∷ n ∷ after) b h e f = ground (arith, lost-behind c (n ∷ after) b)

  lost-coalesce :
      (bs : List TemporaryBlock) (b : TemporaryBlock)
      → find_block x bs ≡ some b
      → ¬ (find_block x (coalesce_free_blocks x bs).0 ≡ none)
  unfolding find_block coalesce_free_blocks merge_around
  lost-coalesce [] b e f = cc
  lost-coalesce (c ∷ []) b e f = ground (arith, lost-behind c [] b)
  lost-coalesce (c ∷ n ∷ after) b e f = ground (arith, lost-behind c (n ∷ after) b)

  -- The freed block stays in the list.
  pub found-coalesce :
      (bs : List TemporaryBlock) (b : TemporaryBlock)
      → find_block x bs ≡ some b
      → (m : TemporaryBlock) × (find_block x (coalesce_free_blocks x bs).0 ≡ some m)
  found-coalesce bs b e = elim (Option-cases (find_block x (coalesce_free_blocks x bs).0)) [
    | inl missing ↦ absurd (lost-coalesce bs b e missing)
    | inr found ↦ found
  ]

  is_free-behind :
      (p : TemporaryBlock) (bs : List TemporaryBlock) (b m : TemporaryBlock)
      → (p.name == x) ≡ false
      → find_block x bs ≡ some b
      → find_block x (coalesce_behind x p bs).0 ≡ some m
      → m.is_free ≡ b.is_free
  unfolding find_block coalesce_behind merge_around
  is_free-behind p [] b m h e f = cc
  is_free-behind p (c ∷ []) b m h e f = ground arith
  is_free-behind p (c ∷ n ∷ after) b m h e f = ground (arith, is_free-behind c (n ∷ after) b m)

  pub is_free-coalesce :
      (bs : List TemporaryBlock) (b m : TemporaryBlock)
      → find_block x bs ≡ some b
      → find_block x (coalesce_free_blocks x bs).0 ≡ some m
      → m.is_free ≡ b.is_free
  unfolding find_block coalesce_free_blocks merge_around
  is_free-coalesce [] b m e f = cc
  is_free-coalesce (c ∷ []) b m e f = ground (arith, is_free-behind c [] b m)
  is_free-coalesce (c ∷ n ∷ after) b m e f = ground (arith, is_free-behind c (n ∷ after) b m)

  gone-behind :
      (p : TemporaryBlock) (bs : List TemporaryBlock)
      → All (λ g. g.is_free ≡ true) (coalesce_behind x p bs).1
  unfolding coalesce_behind merge_around
  gone-behind p [] = tt
  gone-behind p (c ∷ []) = ground (arith, gone-behind c [])
  gone-behind p (c ∷ n ∷ after) = ground (arith, gone-behind c (n ∷ after))

  pub gone-coalesce :
      (bs : List TemporaryBlock) → All (λ g. g.is_free ≡ true) (coalesce_free_blocks x bs).1
  unfolding coalesce_free_blocks merge_around
  gone-coalesce [] = tt
  gone-coalesce (c ∷ []) = ground (arith, gone-behind c [])
  gone-coalesce (c ∷ n ∷ after) = ground (arith, gone-behind c (n ∷ after))
