-- ===== src/Tests/Spill.antt =====
-- Two temporary files on the area from LBA 900 to 995 of a device with blocks of 4096 bytes.
use nvmefs.Prelude.{
  ℕ, ◌+◌, ◌-◌, ◌/◌, ◌<◌, ◌≤◌, ◌≡◌, refl, ◌⊎◌, inr, true, List, [], ◌∷◌, Option, some, arith, Str,
  codes, ok, lookup, length, add64, sub64, mul64, insert, insert_sorted, str_eq, str_lt, find,
  find_from, find_last_of, last_from, nat_eq, string_eq, zero, suc,
}
use nvmefs.BlockManager.Defs.{
  TemporaryBlock, new_manager, allocate_block, find_block, take_block, count_bytes, split_block,
  update_block, push_free_block, pop_free_block, first_free, get_free_list_index, tail_or_nil,
  raise,
}
use nvmefs.BlockManager.Invariant.{IsUsed}
use nvmefs.TempFiles.Defs.{
  TempFileMetadata, TempManager, Pool, new_temp_manager, get_lba, get_or_create_file, create_file,
  add_file, create_temp_file_metadata, get_buffer_size, size_text, index_text, piece, behind,
  sign_extend, block_at, place_block, store_result, raise_files, truncate_file, clear, with_file,
}
use nvmefs.TempFiles.Counts.{map_count}
use nvmefs.TempFiles.Release.{in_use, IsDense}
use nvmefs.TempFiles.Consistent.{
  IsConsistent, Operation, creating, locating, after, after-IsConsistent,
}
use nvmefs.TempFiles.Space.{
  after_all-IsConsistent, new_temp_manager-IsConsistent, after_all, files-Disjoint, clear-one,
  truncate_file-returns,
}
use nvmefs.TempFiles.Locate.{Addressed, get_lba-Addressed}

-- A stand-in for std::stoi: every index is 0.
abbrev stoi : Str → Option ℕ
stoi s = some 0

abbrev temps : TempManager
temps = new_temp_manager 0 0 0 0 900 996 4096

abbrev file_a : Str
file_a = codes "nvmefs:///tmp/duckdb_temp_storage_S32K-0.tmp"

abbrev file_b : Str
file_b = codes "nvmefs:///tmp/duckdb_temp_storage_S64K-0.tmp"

abbrev calls : List Operation
calls =
    creating file_a
    ∷ creating file_b
    ∷ locating file_a 0 8
    ∷ locating file_b 0 16
    ∷ locating file_a 32768 8
    ∷ []

abbrev spilled : TempManager
spilled = after_all stoi calls temps

temps-IsConsistent : IsConsistent temps
temps-IsConsistent = new_temp_manager-IsConsistent 0 0 0 0 900 996 4096 (omega arith) (omega arith)

abbrev meta_of : ℕ → List (ℕ × ℕ) → TempFileMetadata
meta_of size blocks = record {
  is_active = true;
  file_index = 0;
  block_size = size;
  nr_blocks = 4000;
  lba_location = 0;
  block_map = blocks;
}

abbrev meta_a : TempFileMetadata
meta_a = meta_of 32768 ((0, 1) ∷ (1, 3) ∷ [])

abbrev meta_b : TempFileMetadata
meta_b = meta_of 65536 ((0, 2) ∷ [])

spilled_state :
    (lookup file_a spilled.files ≡ some meta_a)
    × (lookup file_b spilled.files ≡ some meta_b)
    × (spilled.pool.block_manager.allocated_start_lba ≡ 900)
    × (spilled.pool.block_manager.allocated_end_lba ≡ 996)
unfolding after get_lba create_file get_or_create_file add_file create_temp_file_metadata
    get_buffer_size size_text index_text piece behind sign_extend block_at place_block store_result
    raise_files lookup insert insert_sorted str_eq str_lt find find_from find_last_of last_from
    new_temp_manager new_manager allocate_block find_block take_block count_bytes split_block
    update_block push_free_block pop_free_block first_free get_free_list_index tail_or_nil raise
    add64 sub64 mul64
spilled_state = (refl, refl, refl, refl)

spilled-IsConsistent : IsConsistent spilled
spilled-IsConsistent =
    after_all-IsConsistent stoi calls temps temps-IsConsistent
      (tt, (tt, (omega arith, (omega arith, (omega arith, tt)))))

after-IsConsistent_example : IsConsistent (after stoi (locating file_b 65536 16) spilled)
after-IsConsistent_example =
    after-IsConsistent stoi (locating file_b 65536 16) spilled spilled-IsConsistent (omega arith)

files-Disjoint_example :
    (b : TemporaryBlock) × (c : TemporaryBlock) × IsUsed spilled.pool.block_manager 3 b
    × IsUsed spilled.pool.block_manager 2 c
    × ((b.start_lba + b.lba_count ≤ c.start_lba) ⊎ (c.start_lba + c.lba_count ≤ b.start_lba))
unfolding lookup str_eq
files-Disjoint_example =
    files-Disjoint stoi calls 0 0 0 0 900 996 4096 (omega arith) (omega arith)
      (tt, (tt, (omega arith, (omega arith, (omega arith, tt))))) spilled refl file_a file_b meta_a
      meta_b 1 0 3 2 (inr (λ e. omega arith)) spilled_state.0 spilled_state.1 refl refl

IsDense-a : IsDense 2 meta_a.block_map
unfolding lookup
IsDense-a zero h = (1, refl)
IsDense-a (suc zero) h = (3, refl)
IsDense-a (suc (suc i)) h = absurd (omega arith)

truncate_file-returns_example :
    (m : List (ℕ × ℕ)) × (q : Pool) × (truncate_file file_a 32768 spilled
      ≡ ok tt (with_file file_a meta_a m q spilled))
    × (length m + (2 - 32768 / 32768) ≡ 2)
    × ((i : ℕ) → i < 32768 / 32768 → lookup i m ≡ lookup i meta_a.block_map)
    × ((z : ℕ) → map_count z meta_a.block_map + in_use z q ≡ map_count z m + in_use z spilled.pool)
truncate_file-returns_example =
    truncate_file-returns spilled spilled-IsConsistent file_a meta_a 32768 spilled_state.0 IsDense-a

clear-one_example :
    (t : TempManager) × (b : TemporaryBlock) × (clear spilled ≡ ok tt t)
    × (t.files ≡ [])
    × (t.pool.block_manager.blocks ≡ b ∷ [])
    × (b.is_free ≡ true)
    × (b.start_lba ≡ spilled.pool.block_manager.allocated_start_lba)
    × (b.lba_count
        ≡ spilled.pool.block_manager.allocated_end_lba
          - spilled.pool.block_manager.allocated_start_lba)
clear-one_example =
    clear-one spilled spilled-IsConsistent (omega (arith, spilled_state.2, spilled_state.3))

get_lba-Addressed_example :
    Addressed file_a meta_a (65536 / 32768) 8 spilled (get_lba file_a 65536 8 spilled)
get_lba-Addressed_example =
    get_lba-Addressed spilled spilled-IsConsistent file_a meta_a 65536 8 spilled_state.0
      (omega arith)
