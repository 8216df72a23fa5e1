-- ===== src/BlockManager/Free.antt =====
-- FreeBlock keeps the allocator valid and every other block in use, and merges what is free.
use nvmefs.Prelude.{
  ℕ, ◌+◌, ◌==◌, ◌≡◌, refl, true, List, [], ◌∷◌, some, get_or, arith, ◌<◌, ◌≤◌, length, sub64, mul64,
  ok, ◌∙◌, All,
}
use nvmefs.BlockManager.Defs.{
  TemporaryBlock, Manager, get_free_list_index, find_block, update_block, push_free_block,
  remove_free_block, remove_free_blocks, coalesce_free_blocks, free_block,
}
use nvmefs.BlockManager.Counts.{
  one_if, weight, free_count, occurs, index-lt, weight-le-count, find_block-name, free_count-update,
  name_count-update,
}
use nvmefs.BlockManager.Lists.{occurs-push, occurs-remove, length-push, length-remove}
use nvmefs.BlockManager.Coalesce.{
  free_count-coalesce, name_count-coalesce, found-coalesce, is_free-coalesce, gone-coalesce,
}
use nvmefs.BlockManager.Cover.{Covers-update, Covers-coalesce, IsMerged-coalesce}
use nvmefs.BlockManager.Frame.{find-update, find-coalesce}
use nvmefs.BlockManager.Allocate.{find-update_self}
use nvmefs.BlockManager.Used.{used_count, used-release, used-coalesce}
use nvmefs.BlockManager.Invariant.{IsValid, IsUsed, Keeps}

-- Removing free blocks that the lists hold takes each out of its list.
remove_listed :
    (gone : List TemporaryBlock) (lists : List (List ℕ)) (y j : ℕ)
    → length lists ≡ 8
    → All (λ g. g.is_free ≡ true) gone
    → ((x i : ℕ) → i < 8 → free_count x i gone ≤ occurs x (get_or lists i []))
    → occurs y (get_or (remove_free_blocks gone lists) j []) + free_count y j gone
      ≡ occurs y (get_or lists j [])
unfolding remove_free_blocks weight
remove_listed [] lists y j e free h = omega arith
remove_listed (g ∷ gone) lists y j e free h =
    let i = get_free_list_index g.lba_count in
    let held : 0 < occurs g.name (get_or lists i []) =
      ground (arith, h g.name i, index-lt g.lba_count) in
    let left : (x k : ℕ)
        → k < 8
        → free_count x k gone ≤ occurs x (get_or (remove_free_block g lists) k []) =
      λ x k small. ground (arith, h x k small, occurs-remove lists e x k g held) in
    ground (
      arith,
      occurs-remove lists e y j g held,
      remove_listed gone (remove_free_block g lists) y j (length-remove g lists ∙ e) free.1 left,
    )

length-remove_all :
    (gone : List TemporaryBlock) (lists : List (List ℕ))
    → length (remove_free_blocks gone lists) ≡ length lists
unfolding remove_free_blocks
length-remove_all [] lists = refl
length-remove_all (g ∷ gone) lists =
    length-remove_all gone (remove_free_block g lists) ∙ length-remove g lists

module _ (m : Manager) (v : IsValid m) (x : ℕ) (b : TemporaryBlock) (used : IsUsed m x b) where
  abbrev released : List TemporaryBlock
  released = update_block x (λ c. record c { is_free = true }) m.blocks

  abbrev kept : List TemporaryBlock
  kept = (coalesce_free_blocks x released).0

  abbrev gone : List TemporaryBlock
  gone = (coalesce_free_blocks x released).1

  abbrev freed : TemporaryBlock
  freed = record b { is_free = true }

  released_found : find_block x released ≡ some freed
  released_found = find-update_self x true m.blocks b used.found

  module _ (merged : TemporaryBlock) (found : find_block x kept ≡ some merged) where
    abbrev result : Manager
    result = record m {
      blocks = kept;
      blocks_free = push_free_block merged (remove_free_blocks gone m.blocks_free);
      active_temp_bytes = sub64 m.active_temp_bytes (mul64 b.lba_count 4096);
    }

    -- The merged neighbours are on the free lists: each is a free block of the table.
    gone_held : (y i : ℕ) → i < 8 → free_count y i gone ≤ occurs y (get_or m.blocks_free i [])
    unfolding weight
    gone_held y i h = ground (
      arith,
      used.in_use,
      v.listed y i h,
      weight-le-count x y i kept merged found,
      free_count-update x y i (λ c. record c { is_free = true }) m.blocks b used.found,
      free_count-coalesce x y i released freed merged released_found found,
    )

    result_listed :
        (y j : ℕ) → j < 8 → occurs y (get_or result.blocks_free j []) ≡ free_count y j kept
    unfolding weight
    result_listed y j h = ground (
      arith,
      is_free-coalesce x released freed merged released_found found,
      find_block-name x kept merged found,
      find_block-name x m.blocks b used.found,
      used.in_use,
      v.listed y j h,
      free_count-update x y j (λ c. record c { is_free = true }) m.blocks b used.found,
      free_count-coalesce x y j released freed merged released_found found,
      remove_listed gone m.blocks_free y j v.lists (gone-coalesce x released) gone_held,
      occurs-push (remove_free_blocks gone m.blocks_free)
          (length-remove_all gone m.blocks_free ∙ v.lists) y j merged,
    )

    result-IsValid : IsValid result
    result-IsValid = record {
      lists = length-push merged _ ∙ length-remove_all gone m.blocks_free ∙ v.lists;
      covers = Covers-coalesce x _ _ released (Covers-update x true _ _ m.blocks v.covers) v.range;
      range = v.range;
      merged = IsMerged-coalesce x m.blocks v.merged;
      unique = λ y. omega (
        arith,
        v.unique y,
        name_count-update x y 0 true m.blocks,
        name_count-coalesce x y 0 released,
      );
      fresh = λ y h. omega (
        arith,
        v.fresh y h,
        name_count-update x y 0 true m.blocks,
        name_count-coalesce x y 0 released,
      );
      listed = result_listed;
    }

    result-Keeps : Keeps x m result
    result-Keeps y c ne u = record {
      found = find-coalesce x y ne released c (find-update x y ne true m.blocks ∙ u.found) u.in_use;
      in_use = u.in_use;
    }

  pub free_block-result :
      (merged : TemporaryBlock) (found : find_block x kept ≡ some merged)
      → free_block x m ≡ ok tt (result merged found)
  unfolding free_block
  free_block-result merged found = rw (used.found, free_block) (rw found)

  -- On a valid allocator, freeing a block in use returns, and leaves a valid allocator over the same
  -- area, where the block is not in use any more and every other block in use is kept,
  -- and no other block is in use that was not.
  pub free_block-IsValid :
      (m' : Manager) × (free_block x m ≡ ok tt m')
      × IsValid m'
      × Keeps x m m'
      × ((c : TemporaryBlock) → ¬ IsUsed m' x c)
      × (m'.allocated_start_lba ≡ m.allocated_start_lba)
      × (m'.allocated_end_lba ≡ m.allocated_end_lba)
      × ((z : ℕ) → one_if (x == z) + used_count z m'.blocks ≡ used_count z m.blocks)
  free_block-IsValid =
      let (merged, found) = found-coalesce x released freed released_found in
      (
        result merged found,
        free_block-result merged found,
        result-IsValid merged found,
        result-Keeps merged found,
        (λ c u. ground (
          arith,
          u.found,
          u.in_use,
          is_free-coalesce x released freed merged released_found found,
        )),
        refl,
        refl,
        (λ z. omega (
          arith,
          used-coalesce z x released,
          used-release z x m.blocks b used.found used.in_use,
        )),
      )
