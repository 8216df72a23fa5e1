-- ===== src/BlockManager/Counts.antt =====
-- How often a block stands in the list of blocks, and as a free block of a given free list.
use nvmefs.Prelude.{
  ℕ, ◌+◌, ◌≡◌, refl, Bool, true, false, ◌&&◌, List, [], ◌∷◌, some, ◌==◌, arith, ◌<◌, ◌≤◌,
  Bool-cases, inl, inr, add64, sub64,
}
use nvmefs.BlockManager.Defs.{
  TemporaryBlock, get_free_list_index, find_block, update_block, split_block,
}

abbrev pub one_if : Bool → ℕ
one_if true = 1
one_if false = 0

-- 1 if `b` is the free block `x` and belongs to free list `i`.
unfoldable pub weight : ℕ → ℕ → TemporaryBlock → ℕ
weight x i b = one_if (b.is_free && (b.name == x && get_free_list_index b.lba_count == i))

abbrev pub free_count : ℕ → ℕ → List TemporaryBlock → ℕ
free_count x i [] = 0
free_count x i (b ∷ bs) = weight x i b + free_count x i bs

abbrev pub name_count : ℕ → List TemporaryBlock → ℕ
name_count x [] = 0
name_count x (b ∷ bs) = one_if (b.name == x) + name_count x bs

abbrev pub occurs : ℕ → List ℕ → ℕ
occurs x [] = 0
occurs x (y ∷ ys) = one_if (y == x) + occurs x ys

pub index-lt : (count : ℕ) → get_free_list_index count < 8
unfolding get_free_list_index
index-lt count = ground arith

pub find_block-name :
    (x : ℕ) (bs : List TemporaryBlock) (b : TemporaryBlock) → find_block x bs ≡ some b → b.name ≡ x
unfolding find_block
find_block-name x [] b e = cc
find_block-name x (c ∷ bs) b e = ground (arith, find_block-name x bs b)

module _ (x : ℕ) where
  pub name_count_found :
      (bs : List TemporaryBlock) (b : TemporaryBlock)
      → find_block x bs ≡ some b
      → 0 < name_count x bs
  unfolding find_block
  name_count_found [] b e = cc
  name_count_found (c ∷ bs) b e = ground (arith, name_count_found bs b)

  pub find_block_counted :
      (bs : List TemporaryBlock)
      → 0 < name_count x bs
      → (b : TemporaryBlock) × (find_block x bs ≡ some b)
  unfolding find_block
  find_block_counted [] h = absurd (omega arith)
  find_block_counted (c ∷ bs) h = elim (Bool-cases (c.name == x)) [
    | inl hit ↦ (c, rw hit)
    | inr miss ↦ let (b, e) = find_block_counted bs (ground arith) in (b, simp miss e)
  ]

  pub free-le-name : (i : ℕ) (bs : List TemporaryBlock) → free_count x i bs ≤ name_count x bs
  unfolding weight
  free-le-name i [] = omega arith
  free-le-name i (c ∷ bs) = ground (arith, free-le-name i bs)

  -- A free block that is counted, and that no other block shares its name with, is found.
  pub free_count_found :
      (i : ℕ) (bs : List TemporaryBlock) (b : TemporaryBlock)
      → 0 < free_count x i bs
      → name_count x bs ≤ 1
      → find_block x bs ≡ some b
      → (b.is_free ≡ true) × (get_free_list_index b.lba_count ≡ i)
  unfolding find_block weight
  free_count_found i [] b h u e = cc
  free_count_found i (c ∷ bs) b h u e = ground (arith, free-le-name i bs, free_count_found i bs b)

module _ (x y i : ℕ) where
  pub weight-le-count :
      (bs : List TemporaryBlock) (b : TemporaryBlock)
      → find_block x bs ≡ some b
      → weight y i b ≤ free_count y i bs
  unfolding find_block
  weight-le-count [] b e = cc
  weight-le-count (c ∷ bs) b e = ground (arith, weight-le-count bs b)

  pub free_count-update :
      (f : TemporaryBlock → TemporaryBlock) (bs : List TemporaryBlock) (b : TemporaryBlock)
      → find_block x bs ≡ some b
      → free_count y i (update_block x f bs) + weight y i b ≡ free_count y i bs + weight y i (f b)
  unfolding find_block update_block
  free_count-update f [] b e = cc
  free_count-update f (c ∷ bs) b e = ground (arith, free_count-update f bs b)

  pub free_count-split :
      (fresh count : ℕ) (bs : List TemporaryBlock) (b : TemporaryBlock)
      → find_block x bs ≡ some b
      → free_count y i (split_block x fresh count bs) + weight y i b
        ≡ free_count y i bs
          + weight y i (record b {
            start_lba = add64 b.start_lba count;
            lba_count = sub64 b.lba_count count;
            is_free = true;
          })
  unfolding find_block split_block weight
  free_count-split fresh count [] b e = cc
  free_count-split fresh count (c ∷ bs) b e = ground (arith, free_count-split fresh count bs b)

  pub name_count-update :
      (free : Bool) (bs : List TemporaryBlock)
      → name_count y (update_block x (λ b. record b { is_free = free }) bs) ≡ name_count y bs
  unfolding update_block
  name_count-update free [] = refl
  name_count-update free (c ∷ bs) = ground (arith, name_count-update free bs)

  pub name_count-split :
      (fresh count : ℕ) (bs : List TemporaryBlock) (b : TemporaryBlock)
      → find_block x bs ≡ some b
      → name_count y (split_block x fresh count bs) ≡ name_count y bs + one_if (fresh == y)
  unfolding find_block split_block
  name_count-split fresh count [] b e = cc
  name_count-split fresh count (c ∷ bs) b e = ground (arith, name_count-split fresh count bs b)
