-- ===== src/BlockManager/Allocate.antt =====
-- AllocateBlock keeps the allocator valid, and hands out a block that nobody used.
use nvmefs.Prelude.{
  ℕ, ◌+◌, ◌≡◌, refl, ◌⊎◌, Bool, true, false, List, [], ◌∷◌, Option, none, some, ◌==◌, get_or, arith,
  ◌<◌, ◌≤◌, sub64, Run, ok, err, no_free_block, inl, inr, Bool-cases, ltb, null_dereference, ◌∙◌,
}
use nvmefs.BlockManager.Defs.{
  TemporaryBlock, Manager, get_free_list_index, find_block, update_block, split_block,
  push_free_block, pop_free_block, take_block, count_bytes, allocate_block, first_free,
}
use nvmefs.BlockManager.Counts.{
  one_if, weight, free_count, name_count, occurs, name_count_found, find_block-name,
  free_count-update, free_count-split, name_count-update, name_count-split,
}
use nvmefs.BlockManager.Lists.{
  occurs-push, occurs-pop, length-push, length-pop, Found, nothing, top, first_free-Found,
}
use nvmefs.BlockManager.Cover.{Covers-update, Covers-split, IsMerged-update, IsMerged-split}
use nvmefs.BlockManager.Frame.{find-update, find-split}
use nvmefs.BlockManager.Used.{used_count, used-split, used-take}
use nvmefs.BlockManager.Invariant.{IsValid, IsUsed, Keeps, listed_free}

pub find-update_self :
    (x : ℕ) (free : Bool) (bs : List TemporaryBlock) (b : TemporaryBlock)
    → find_block x bs ≡ some b
    → find_block x (update_block x (λ c. record c { is_free = free }) bs)
      ≡ some (record b { is_free = free })
unfolding find_block update_block
find-update_self x free [] b e = cc
find-update_self x free (c ∷ bs) b e = ground (arith, find-update_self x free bs b)

find-split_fresh :
    (x fresh count : ℕ) (bs : List TemporaryBlock) (b : TemporaryBlock)
    → find_block x bs ≡ some b
    → name_count fresh bs ≡ 0
    → find_block fresh (split_block x fresh count bs)
      ≡ some (record { name = fresh; start_lba = b.start_lba; lba_count = count; is_free = false })
unfolding find_block split_block
find-split_fresh x fresh count [] b e f = cc
find-split_fresh x fresh count (c ∷ bs) b e f = ground (arith, find-split_fresh x fresh count bs b)

-- What the caller gets: block `y`, in use now and free before, of at most the size asked for, and
-- smaller only if its free list has smaller blocks; every other block in use is kept.
pub record Allocated (count : ℕ) (m m' : Manager) (y : ℕ) : Type 0 where
  pub valid : IsValid m'
  pub block : TemporaryBlock
  pub used : IsUsed m' y block
  pub size :
      (block.lba_count ≡ count)
      ⊎ ((block.lba_count < count)
          × (get_free_list_index count ≤ get_free_list_index block.lba_count))
  pub new : (c : TemporaryBlock) → ¬ IsUsed m y c
  pub keeps : Keeps y m m'
  -- No name but that of the block is one of a block in use more often than before.
  pub counts : (z : ℕ) → used_count z m'.blocks ≡ one_if (y == z) + used_count z m.blocks
  pub area :
      (m'.allocated_start_lba ≡ m.allocated_start_lba)
      × (m'.allocated_end_lba ≡ m.allocated_end_lba)

module _ (m : Manager) (v : IsValid m) (count i x : ℕ) (xs : List ℕ) (b : TemporaryBlock)
    (i-lt : i < 8) (top_of : get_or m.blocks_free i [] ≡ x ∷ xs)
    (found : find_block x m.blocks ≡ some b) (free : b.is_free ≡ true)
    (index : get_free_list_index b.lba_count ≡ i) where
  abbrev rest : TemporaryBlock
  rest = record b { lba_count = sub64 b.lba_count count }

  abbrev split : Manager
  split = record m {
    blocks = split_block x m.next_name count m.blocks;
    blocks_free = push_free_block rest (pop_free_block i m.blocks_free);
    next_name = m.next_name + 1;
  }

  name : b.name ≡ x
  name = find_block-name x m.blocks b found

  split_listed :
      (y j : ℕ) → j < 8 → occurs y (get_or split.blocks_free j []) ≡ free_count y j split.blocks
  unfolding weight
  split_listed y j h = ground (
    arith,
    name,
    length-pop i m.blocks_free,
    occurs-push (pop_free_block i m.blocks_free) (length-pop i m.blocks_free ∙ v.lists) y j rest,
    occurs-pop m.blocks_free v.lists y j i x xs i-lt top_of,
    v.listed y j h,
    free_count-split x y j m.next_name count m.blocks b found,
  )

  split-IsValid : 0 < count → count < b.lba_count → IsValid split
  split-IsValid p q = record {
    lists = length-push rest _ ∙ length-pop i m.blocks_free ∙ v.lists;
    covers = Covers-split x m.next_name count _ _ m.blocks b v.covers v.range found p q;
    range = v.range;
    merged = IsMerged-split x m.next_name count false m.blocks b v.merged found free;
    unique = λ y.
        ground
          (arith, name_count-split x y 0 m.next_name count m.blocks b found, v.unique y, v.fresh y);
    fresh =
        λ y h. ground (arith, name_count-split x y 0 m.next_name count m.blocks b found, v.fresh y);
    listed = split_listed;
  }

  abbrev whole : Manager
  whole = record m {
    blocks = update_block x (λ c. record c { is_free = false }) m.blocks;
    blocks_free = pop_free_block i m.blocks_free;
  }

  whole_listed :
      (y j : ℕ) → j < 8 → occurs y (get_or whole.blocks_free j []) ≡ free_count y j whole.blocks
  unfolding weight
  whole_listed y j h = ground (
    arith,
    name,
    occurs-pop m.blocks_free v.lists y j i x xs i-lt top_of,
    v.listed y j h,
    free_count-update x y j (λ c. record c { is_free = false }) m.blocks b found,
  )

  whole-IsValid : IsValid whole
  whole-IsValid = record {
    lists = length-pop i m.blocks_free ∙ v.lists;
    covers = Covers-update x false _ _ m.blocks v.covers;
    range = v.range;
    merged = IsMerged-update x false m.blocks v.merged;
    unique = λ y. omega (arith, name_count-update x y 0 false m.blocks, v.unique y);
    fresh = λ y h. omega (arith, name_count-update x y 0 false m.blocks, v.fresh y h);
    listed = whole_listed;
  }

  -- Counters are no part of what the blocks promise.
  counted : (n : Manager) → IsValid n → IsValid (count_bytes count n)
  unfolding count_bytes
  counted n w = record {
    lists = w.lists;
    covers = w.covers;
    range = w.range;
    merged = w.merged;
    unique = w.unique;
    fresh = w.fresh;
    listed = w.listed;
  }

  split-Keeps : Keeps m.next_name m (count_bytes count split)
  unfolding count_bytes
  split-Keeps y c ne used = elim (Bool-cases (x == y)) [
    | inl same ↦ absurd (ground (arith, used.found, used.in_use))
    | inr other ↦ record {
      found = find-split x y (λ e. ground arith) m.next_name count m.blocks ne ∙ used.found;
      in_use = used.in_use;
    }
  ]

  whole-Keeps : Keeps x m (count_bytes count whole)
  unfolding count_bytes
  whole-Keeps y c ne used = record {
    found = find-update x y ne false m.blocks ∙ used.found;
    in_use = used.in_use;
  }

  split-Allocated :
      0 < count → count < b.lba_count → Allocated count m (count_bytes count split) m.next_name
  unfolding count_bytes
  split-Allocated p q = record {
    valid = counted split (split-IsValid p q);
    block = record {
      name = m.next_name;
      start_lba = b.start_lba;
      lba_count = count;
      is_free = false;
    };
    used = record {
      found =
          find-split_fresh x m.next_name count m.blocks b found (v.fresh m.next_name (omega arith));
      in_use = refl;
    };
    size = inl refl;
    new = λ c u.
        omega (
          arith,
          name_count_found m.next_name m.blocks c u.found,
          v.fresh m.next_name (omega arith),
        );
    keeps = split-Keeps;
    counts = λ z. used-split z x m.next_name count m.blocks b found free;
    area = (refl, refl);
  }

  whole-Allocated :
      b.lba_count ≤ count
      → get_free_list_index count ≤ i
      → Allocated count m (count_bytes count whole) x
  unfolding count_bytes
  whole-Allocated p large = record {
    valid = counted whole whole-IsValid;
    block = record b { is_free = false };
    used = record { found = find-update_self x false m.blocks b found; in_use = refl };
    size = ground arith;
    new = λ c u. ground (arith, u.found, u.in_use);
    keeps = whole-Keeps;
    counts = λ z. used-take z x m.blocks b found free;
    area = (refl, refl);
  }

  take_block-Allocated :
      0 < count
      → get_free_list_index count ≤ i
      → Allocated count m
          (count_bytes count (take_block count i x b m).1)
          (take_block count i x b m).0
  unfolding take_block
  take_block-Allocated p large = elim (Bool-cases (ltb count b.lba_count)) [
    | inl larger ↦ rw larger (split-Allocated p (ground arith))
    | inr fits ↦ rw fits (whole-Allocated (ground arith) large)
  ]

-- Every free list that could hold a block of the size is empty.
abbrev pub HasNone : ℕ → Manager → Type 0
HasNone count m = (i : ℕ) → get_free_list_index count ≤ i → get_or m.blocks_free i [] ≡ []

-- The results of AllocateBlock: it throws only when every free list that could hold a block of the
-- size is empty.
pub data Outcome (count : ℕ) (m : Manager) : Run Manager ℕ → Type 0 where
  exhausted : HasNone count m → Outcome count m (err no_free_block m)
  allocated : {y : ℕ} {m' : Manager} → Allocated count m m' y → Outcome count m (ok y m')

module _ (count : ℕ) (m : Manager) (v : IsValid m) (p : 0 < count) where
  abbrev finish : Option (ℕ × ℕ) → Run Manager ℕ
  finish o = elim o [
    | none ↦ err no_free_block m
    | some (i, x) ↦ elim (find_block x m.blocks) [
      | none ↦ err null_dereference m
      | some b ↦ let (y, m') = take_block count i x b m in ok y (count_bytes count m')
    ]
  ]

  finish-Outcome :
      (o : Option (ℕ × ℕ))
      → Found (get_free_list_index count) 0 m.blocks_free o
      → Outcome count m (finish o)
  finish-Outcome o (nothing empty) = exhausted (λ i h. empty i (omega arith))
  finish-Outcome o (top k x xs h k-lt e before) =
      let small : k < 8 = omega (arith, v.lists) in
      let (b, found, free, index) = listed_free m x k xs v small e in
      let same : 0 + k ≡ k = omega arith in
      rw same (
        rw (found, finish)
          (allocated
            (take_block-Allocated m v count k x xs b small e found free index p (omega arith))))

  -- On a valid allocator and for a positive count AllocateBlock either returns a block that is in use
  -- from then on, leaving a valid allocator over the same area where every block in use before is
  -- kept, the new one was not in use, and no other is in use now; or it throws, changing nothing, and all the free lists that
  -- it searches are empty.
  pub allocate_block-Outcome : Outcome count m (allocate_block count m)
  unfolding allocate_block
  allocate_block-Outcome =
      finish-Outcome (first_free (get_free_list_index count) 0 m.blocks_free)
        (first_free-Found (get_free_list_index count) 0 m.blocks_free)
