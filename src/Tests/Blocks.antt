-- ===== src/Tests/Blocks.antt =====
-- The temporary area from LBA 900 to 999.
use nvmefs.Prelude.{
  ℕ, ◌+◌, ◌≤◌, ◌<◌, ◌≡◌, ◌==◌, refl, ◌⊎◌, Bool, true, false, List, [], ◌∷◌, some, arith, ok, err,
  final, no_free_block, add64, sub64, mul64, map, zero, suc, get_or,
}
use nvmefs.BlockManager.Defs.{
  Manager, TemporaryBlock, new_manager, allocate_block, free_block, find_block, take_block,
  count_bytes, split_block, update_block, push_free_block, pop_free_block, first_free,
  get_free_list_index, tail_or_nil, raise, coalesce_free_blocks, coalesce_behind, merge_around,
  remove_free_blocks, remove_free_block, remove_name,
}
use nvmefs.BlockManager.Counts.{one_if, weight, occurs, free_count}
use nvmefs.BlockManager.Used.{used_count}
use nvmefs.BlockManager.Invariant.{IsValid, IsUsed, Keeps, new_manager-IsValid}
use nvmefs.BlockManager.Allocate.{Outcome, allocate_block-Outcome}
use nvmefs.BlockManager.Free.{free_block-IsValid}
use nvmefs.BlockManager.Units.{AreUnits, allocate_block-exact, allocate_block-undersized}
use nvmefs.BlockManager.Calls.{
  Call, allocating, freeing, after_call, after_calls, AreAllowed, after_calls-Disjoint,
}

abbrev area : Manager
area = new_manager 0 0 900 996

new_manager-IsValid_example : IsValid area
new_manager-IsValid_example = new_manager-IsValid 0 0 900 996 (omega arith) (omega arith)

allocate_block-Outcome_example : Outcome 16 area (allocate_block 16 area)
allocate_block-Outcome_example =
    allocate_block-Outcome 16 area (new_manager-IsValid 0 0 900 996 (omega arith) (omega arith))
      (omega arith)

-- Two blocks of 16 and 8 LBAs are taken, and the first is given back.
abbrev two_taken : Manager
two_taken = final (allocate_block 8 (final (allocate_block 16 area)))

abbrev starts : Manager → List (ℕ × ℕ)
starts m = map (λ b. (b.start_lba, b.lba_count)) m.blocks

layout_taken : starts two_taken ≡ (900, 16) ∷ (916, 8) ∷ (924, 72) ∷ []
unfolding new_manager allocate_block take_block count_bytes split_block update_block push_free_block
    pop_free_block first_free get_free_list_index tail_or_nil raise find_block add64 sub64 mul64
layout_taken = refl

layout_freed : starts (final (free_block 2 (final (free_block 1 two_taken)))) ≡ (900, 96) ∷ []
unfolding free_block coalesce_free_blocks coalesce_behind merge_around remove_free_blocks
    remove_free_block remove_name new_manager allocate_block take_block count_bytes split_block
    update_block push_free_block pop_free_block first_free get_free_list_index tail_or_nil raise
    find_block add64 sub64 mul64
layout_freed = refl

-- One block of 16 LBAs and one of 8 in use, the rest free.
abbrev block : ℕ → ℕ → ℕ → Bool → TemporaryBlock
block x start count free = record { name = x; start_lba = start; lba_count = count; is_free = free }

abbrev in_use : Manager
in_use = record {
  blocks = block 1 900 16 false ∷ block 2 916 8 false ∷ block 0 924 72 true ∷ [];
  blocks_free = [] ∷ [] ∷ [] ∷ [] ∷ [] ∷ [] ∷ [] ∷ (0 ∷ []) ∷ [];
  allocated_start_lba = 900;
  allocated_end_lba = 996;
  next_name = 3;
  active_temp_bytes = 98304;
  peak_temp_bytes = 98304;
}

in_use_listed :
    (x i : ℕ) → i < 8 → occurs x (get_or in_use.blocks_free i []) ≡ free_count x i in_use.blocks
unfolding weight get_free_list_index
in_use_listed x zero h = ground arith
in_use_listed x (suc zero) h = ground arith
in_use_listed x (suc (suc zero)) h = ground arith
in_use_listed x (suc (suc (suc zero))) h = ground arith
in_use_listed x (suc (suc (suc (suc zero)))) h = ground arith
in_use_listed x (suc (suc (suc (suc (suc zero))))) h = ground arith
in_use_listed x (suc (suc (suc (suc (suc (suc zero)))))) h = ground arith
in_use_listed x (suc (suc (suc (suc (suc (suc (suc zero))))))) h = ground arith
in_use_listed x (suc (suc (suc (suc (suc (suc (suc (suc i)))))))) h = absurd (omega arith)

in_use-IsValid : IsValid in_use
in_use-IsValid = record {
  lists = refl;
  covers = omega arith;
  range = omega arith;
  merged = (refl, (refl, (refl, tt)));
  unique = λ x. ground arith;
  fresh = λ x h. ground arith;
  listed = in_use_listed;
}

first-IsUsed : IsUsed in_use 1 (block 1 900 16 false)
unfolding find_block
first-IsUsed = record { found = refl; in_use = refl }

second-IsUsed : IsUsed in_use 2 (block 2 916 8 false)
unfolding find_block
second-IsUsed = record { found = refl; in_use = refl }

free_block-IsValid_example :
    (m' : Manager) × (free_block 1 in_use ≡ ok tt m')
    × IsValid m'
    × Keeps 1 in_use m'
    × ((c : TemporaryBlock) → ¬ IsUsed m' 1 c)
    × (m'.allocated_start_lba ≡ 900)
    × (m'.allocated_end_lba ≡ 996)
    × ((z : ℕ) → one_if (1 == z) + used_count z m'.blocks ≡ used_count z in_use.blocks)
free_block-IsValid_example =
    free_block-IsValid in_use in_use-IsValid 1 (block 1 900 16 false) first-IsUsed

allocate_block-exact_example :
    (allocate_block 24 in_use ≡ err no_free_block in_use)
    ⊎ ((y : ℕ) × (m' : Manager) × (b : TemporaryBlock) × (allocate_block 24 in_use ≡ ok y m')
        × IsUsed m' y b
        × (b.lba_count ≡ 24)
        × AreUnits m')
allocate_block-exact_example =
    allocate_block-exact in_use 24 in_use-IsValid (omega arith) (omega arith) (omega arith)
      (omega arith)

-- An area of 60 LBAs: a request for 64 is answered with all of it.
abbrev small_area : Manager
small_area = new_manager 0 0 900 960

allocate_block-undersized_example :
    (m' : Manager) × (allocate_block 64 small_area ≡ ok 0 m')
    × (find_block 0 m'.blocks ≡ some (block 0 900 (sub64 960 900) false))
unfolding new_manager get_free_list_index find_block sub64
allocate_block-undersized_example =
    allocate_block-undersized small_area 64 0 [] (block 0 900 (sub64 960 900) true) refl refl
      (omega arith)

-- Blocks of 16, 8 and 24 LBAs are taken, and the second is given back before the third.
abbrev three_calls : List Call
three_calls = allocating 16 ∷ allocating 8 ∷ freeing 2 ∷ allocating 24 ∷ []

abbrev called : Manager
called = after_calls three_calls (new_manager 0 0 900 996)

three_calls-AreAllowed : AreAllowed three_calls (new_manager 0 0 900 996)
unfolding after_call new_manager allocate_block take_block count_bytes split_block update_block
    push_free_block pop_free_block first_free get_free_list_index tail_or_nil raise find_block add64
    sub64 mul64 used_count
three_calls-AreAllowed = (omega arith, (omega arith, (omega arith, (omega arith, tt))))

after_calls-Disjoint_example :
    ((900 + 16 ≤ 916) ⊎ (916 + 24 ≤ 900)) × (900 ≤ 900) × (900 + 16 ≤ 996)
unfolding after_calls after_call free_block coalesce_free_blocks coalesce_behind merge_around
    remove_free_blocks remove_free_block remove_name new_manager allocate_block take_block
    count_bytes split_block update_block push_free_block pop_free_block first_free
    get_free_list_index tail_or_nil raise find_block add64 sub64 mul64
after_calls-Disjoint_example =
    after_calls-Disjoint three_calls 0 0 900 996 (omega arith) (omega arith) three_calls-AreAllowed
      1 3 (block 1 900 16 false) (block 3 916 24 false) (λ e. omega arith)
      (record { found = refl; in_use = refl }) (record { found = refl; in_use = refl })
