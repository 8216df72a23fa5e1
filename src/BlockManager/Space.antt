-- ===== src/BlockManager/Space.antt =====
-- The area is never cut up for nothing, and no two blocks share an LBA.
use nvmefs.Prelude.{
  ℕ, ◌+◌, ◌-◌, ◌≡◌, refl, ◌≢◌, ◌⊎◌, true, false, List, [], ◌∷◌, some, arith, ◌<◌, ◌≤◌, All,
}
use nvmefs.BlockManager.Defs.{TemporaryBlock, Manager, find_block}
use nvmefs.BlockManager.Cover.{Covers, IsMerged, Covers-found}
use nvmefs.BlockManager.Invariant.{IsValid, IsUsed}

-- In a valid allocator over an area that is not empty, when every block is free there is one block,
-- and it is the whole area.
pub All-free-one :
    (m : Manager)
    → IsValid m
    → m.allocated_start_lba < m.allocated_end_lba
    → All (λ b. b.is_free ≡ true) m.blocks
    → (b : TemporaryBlock) × (m.blocks ≡ b ∷ [])
      × (b.start_lba ≡ m.allocated_start_lba)
      × (b.lba_count ≡ m.allocated_end_lba - m.allocated_start_lba)
All-free-one m v h free = one m.blocks _ _ h v.covers v.merged free
  where
    one :
        (bs : List TemporaryBlock) (lo hi : ℕ)
        → lo < hi
        → Covers lo hi bs
        → IsMerged false bs
        → All (λ b. b.is_free ≡ true) bs
        → (b : TemporaryBlock) × (bs ≡ b ∷ []) × (b.start_lba ≡ lo) × (b.lba_count ≡ hi - lo)
    one [] lo hi h c g f = absurd (omega arith)
    one (b ∷ []) lo hi h c g f = (b, refl, c.0, omega arith)
    one (b ∷ n ∷ bs) lo hi h c g f = absurd (ground arith)

found-apart :
    (x y lo hi : ℕ) (bs : List TemporaryBlock) (b c : TemporaryBlock)
    → x ≢ y
    → Covers lo hi bs
    → find_block x bs ≡ some b
    → find_block y bs ≡ some c
    → (b.start_lba + b.lba_count ≤ c.start_lba) ⊎ (c.start_lba + c.lba_count ≤ b.start_lba)
unfolding find_block
found-apart x y lo hi [] b c ne v e f = cc
found-apart x y lo hi (d ∷ bs) b c ne v e f = ground (
  arith,
  Covers-found x (lo + d.lba_count) hi bs b v.2,
  Covers-found y (lo + d.lba_count) hi bs c v.2,
  found-apart x y (lo + d.lba_count) hi bs b c ne v.2,
)

-- In a valid allocator two different blocks in use share no LBA, and the first lies in the temporary
-- area.
pub used-Disjoint :
    (m : Manager) (x y : ℕ) (b c : TemporaryBlock)
    → IsValid m
    → x ≢ y
    → IsUsed m x b
    → IsUsed m y c
    → ((b.start_lba + b.lba_count ≤ c.start_lba) ⊎ (c.start_lba + c.lba_count ≤ b.start_lba))
      × (m.allocated_start_lba ≤ b.start_lba)
      × (b.start_lba + b.lba_count ≤ m.allocated_end_lba)
used-Disjoint m x y b c v ne p q =
    let (above, pos, below) = Covers-found x _ _ m.blocks b v.covers p.found in
    (found-apart x y _ _ m.blocks b c ne v.covers p.found q.found, above, below)
