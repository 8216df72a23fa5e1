-- ===== src/BlockManager/Invariant.antt =====
-- What holds of the allocator between two calls.
use nvmefs.Prelude.{
  ℕ, zero, suc, ◌+◌, ◌^◌, ◌≡◌, refl, ◌≢◌, true, false, List, [], ◌∷◌, some, get_or, arith, ◌<◌, ◌≤◌,
  length, sub64, sub64_exact,
}
use nvmefs.BlockManager.Defs.{TemporaryBlock, Manager, new_manager, get_free_list_index, find_block}
use nvmefs.BlockManager.Counts.{
  weight, free_count, name_count, occurs, find_block_counted, free_count_found, free-le-name,
}
use nvmefs.BlockManager.Cover.{Covers, IsMerged}

pub record IsValid (m : Manager) : Type 0 where
  pub lists : length m.blocks_free ≡ 8
  pub covers : Covers m.allocated_start_lba m.allocated_end_lba m.blocks
  pub range : m.allocated_end_lba < 2 ^ 64
  pub merged : IsMerged false m.blocks
  pub unique : (x : ℕ) → name_count x m.blocks ≤ 1
  pub fresh : (x : ℕ) → m.next_name ≤ x → name_count x m.blocks ≡ 0
  -- Free list `i` holds exactly the free blocks of its sizes.
  pub listed : (x i : ℕ) → i < 8 → occurs x (get_or m.blocks_free i []) ≡ free_count x i m.blocks

-- The block behind a pointer that a caller was given.
pub record IsUsed (m : Manager) (x : ℕ) (b : TemporaryBlock) : Type 0 where
  pub found : find_block x m.blocks ≡ some b
  pub in_use : b.is_free ≡ false

-- The blocks in use, but for `x`, are the same, and stand where they stood.
abbrev pub Keeps : ℕ → Manager → Manager → Type 0
Keeps x m m' = (y : ℕ) (c : TemporaryBlock) → x ≢ y → IsUsed m y c → IsUsed m' y c

-- The name at the top of a free list is that of a free block of the list's sizes.
pub listed_free :
    (m : Manager) (x i : ℕ) (xs : List ℕ)
    → IsValid m
    → i < 8
    → get_or m.blocks_free i [] ≡ x ∷ xs
    → (b : TemporaryBlock) × (find_block x m.blocks ≡ some b)
      × (b.is_free ≡ true)
      × (get_free_list_index b.lba_count ≡ i)
listed_free m x i xs v h e =
    let same : occurs x (x ∷ xs) ≡ free_count x i m.blocks = rw e at (v.listed x i h) in
    let counted : 0 < free_count x i m.blocks = ground arith in
    let (b, found) = find_block_counted x m.blocks (omega (arith, free-le-name x i m.blocks)) in
    let (free, index) = free_count_found x i m.blocks b counted (v.unique x) found in
    (b, found, free, index)

new_listed :
    (size start x i : ℕ)
    → get_free_list_index size ≡ 7
    → i < 8
    → occurs x (get_or ([] ∷ [] ∷ [] ∷ [] ∷ [] ∷ [] ∷ [] ∷ (0 ∷ []) ∷ []) i [])
      ≡ weight x i (record { name = 0; start_lba = start; lba_count = size; is_free = true }) + 0
unfolding weight
new_listed size start x zero e h = ground arith
new_listed size start x (suc zero) e h = ground arith
new_listed size start x (suc (suc zero)) e h = ground arith
new_listed size start x (suc (suc (suc zero))) e h = ground arith
new_listed size start x (suc (suc (suc (suc zero)))) e h = ground arith
new_listed size start x (suc (suc (suc (suc (suc zero))))) e h = ground arith
new_listed size start x (suc (suc (suc (suc (suc (suc zero)))))) e h = ground arith
new_listed size start x (suc (suc (suc (suc (suc (suc (suc zero))))))) e h = ground arith
new_listed size start x (suc (suc (suc (suc (suc (suc (suc (suc i)))))))) e h = absurd (omega arith)

large_index : (size : ℕ) → 56 < size → get_free_list_index size ≡ 7
unfolding get_free_list_index
large_index size h = ground arith

-- A fresh allocator is valid, if its area has more than 56 blocks and ends at a word.
pub new_manager-IsValid :
    (active peak start end : ℕ)
    → start + 56 < end
    → end < 2 ^ 64
    → IsValid (new_manager active peak start end)
unfolding new_manager
new_manager-IsValid active peak start end h k =
    let exact = sub64_exact end start (omega arith) k in
    record {
      lists = refl;
      covers = (refl, omega (arith, exact), omega (arith, exact));
      range = k;
      merged = (refl, tt);
      unique = λ x. ground arith;
      fresh = λ x p. ground arith;
      listed =
          λ x i p. new_listed (sub64 end start) start x i (large_index _ (omega (arith, exact))) p;
    }
