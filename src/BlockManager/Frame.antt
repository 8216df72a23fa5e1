-- ===== src/BlockManager/Frame.antt =====
-- A block in use keeps its place while other blocks are allocated and freed.
use nvmefs.Prelude.{ℕ, ◌≡◌, refl, ◌≢◌, Bool, false, List, [], ◌∷◌, some, ◌==◌, arith}
use nvmefs.BlockManager.Defs.{
  TemporaryBlock, find_block, update_block, split_block, merge_around, coalesce_behind,
  coalesce_free_blocks,
}

module _ (x y : ℕ) (other : x ≢ y) where
  pub find-update :
      (free : Bool) (bs : List TemporaryBlock)
      → find_block y (update_block x (λ b. record b { is_free = free }) bs) ≡ find_block y bs
  unfolding find_block update_block
  find-update free [] = refl
  find-update free (c ∷ bs) = ground (arith, find-update free bs)

  pub find-split :
      (fresh count : ℕ) (bs : List TemporaryBlock)
      → fresh ≢ y
      → find_block y (split_block x fresh count bs) ≡ find_block y bs
  unfolding find_block split_block
  find-split fresh count [] h = refl
  find-split fresh count (c ∷ bs) h = ground (arith, find-split fresh count bs h)

  find-behind :
      (p : TemporaryBlock) (bs : List TemporaryBlock) (c : TemporaryBlock)
      → find_block y (p ∷ bs) ≡ some c
      → c.is_free ≡ false
      → (p.name == x) ≡ false
      → find_block y (coalesce_behind x p bs).0 ≡ some c
  unfolding find_block coalesce_behind merge_around
  find-behind p [] c e f m = e
  find-behind p (b ∷ []) c e f m = ground arith
  find-behind p (b ∷ n ∷ after) c e f m = ground (arith, find-behind b (n ∷ after) c)

  -- Coalescing around `x` leaves every block in use where it is.
  pub find-coalesce :
      (bs : List TemporaryBlock) (c : TemporaryBlock)
      → find_block y bs ≡ some c
      → c.is_free ≡ false
      → find_block y (coalesce_free_blocks x bs).0 ≡ some c
  unfolding find_block coalesce_free_blocks merge_around
  find-coalesce [] c e f = e
  find-coalesce (b ∷ []) c e f = ground (arith, find-behind b [] c)
  find-coalesce (b ∷ n ∷ after) c e f = ground (arith, find-behind b (n ∷ after) c)
