-- ===== src/BlockManager/Defs.antt =====
-- TemporaryBlock and NvmeTemporaryBlockManager. The doubly linked list of all blocks is the list
-- `blocks` in its order, and each doubly linked free list is the list of its blocks' names, its top
-- first. The name of a block stands for the address of its object, which is never used again. The
-- atomic counters nvmefs_active_temp_bytes and nvmefs_peak_temp_bytes are part of the state.
use nvmefs.Prelude.{
  ℕ, suc, ◌+◌, Bool, true, false, ◌&&◌, List, [], ◌∷◌, Option, none, some, ltb, leb, ◌==◌,
  if◌then◌else◌, set, get_or, add64, sub64, mul64, ok, err, Cmd, no_free_block, null_dereference,
}

pub record TemporaryBlock : Type 0 where
  pub name : ℕ
  pub start_lba : ℕ
  pub lba_count : ℕ
  pub is_free : Bool

pub record Manager : Type 0 where
  pub blocks : List TemporaryBlock
  pub blocks_free : List (List ℕ)
  pub allocated_start_lba : ℕ
  pub allocated_end_lba : ℕ
  pub next_name : ℕ
  pub active_temp_bytes : ℕ
  pub peak_temp_bytes : ℕ

-- The constructor: one free block, at the top of the last free list.
unfoldable pub new_manager : (active peak start end : ℕ) → Manager
new_manager active peak start end = record {
  blocks = record { name = 0; start_lba = start; lba_count = sub64 end start; is_free = true } ∷ [];
  blocks_free = [] ∷ [] ∷ [] ∷ [] ∷ [] ∷ [] ∷ [] ∷ (0 ∷ []) ∷ [];
  allocated_start_lba = start;
  allocated_end_lba = end;
  next_name = 1;
  active_temp_bytes = active;
  peak_temp_bytes = peak;
}

unfoldable pub get_end_lba : TemporaryBlock → ℕ
get_end_lba b = sub64 (add64 b.start_lba b.lba_count) 1

unfoldable pub get_free_list_index : ℕ → ℕ
get_free_list_index count =
    if leb count 8
    then 0
    else if leb count 16
    then 1
    else if leb count 24
    then 2
    else if leb count 32
    then 3
    else if leb count 40
    then 4
    else if leb count 48
    then 5
    else if leb count 56
    then 6
    else if leb count 64
    then 7
    else 7

-- The block behind a pointer.
unfoldable pub find_block : ℕ → List TemporaryBlock → Option TemporaryBlock
find_block x [] = none
find_block x (b ∷ bs) = if b.name == x then some b else find_block x bs

-- A write through a pointer to a block.
unfoldable pub update_block :
    ℕ → (TemporaryBlock → TemporaryBlock) → List TemporaryBlock → List TemporaryBlock
update_block x f [] = []
update_block x f (b ∷ bs) = if b.name == x then f b ∷ bs else b ∷ update_block x f bs

abbrev pub set_free : Bool → TemporaryBlock → TemporaryBlock
set_free free b = record b { is_free = free }

unfoldable pub push_free_block : TemporaryBlock → List (List ℕ) → List (List ℕ)
push_free_block b lists =
    let i = get_free_list_index b.lba_count in set lists i (b.name ∷ get_or lists i [])

unfoldable pub tail_or_nil : List ℕ → List ℕ
tail_or_nil [] = []
tail_or_nil (x ∷ xs) = xs

-- The free lists after PopFreeBlock.
unfoldable pub pop_free_block : ℕ → List (List ℕ) → List (List ℕ)
pop_free_block i lists = set lists i (tail_or_nil (get_or lists i []))

unfoldable pub remove_name : ℕ → List ℕ → List ℕ
remove_name x [] = []
remove_name x (y ∷ ys) = if y == x then ys else y ∷ remove_name x ys

unfoldable pub remove_free_block : TemporaryBlock → List (List ℕ) → List (List ℕ)
remove_free_block b lists =
    let i = get_free_list_index b.lba_count in set lists i (remove_name b.name (get_or lists i []))

unfoldable pub remove_free_blocks : List TemporaryBlock → List (List ℕ) → List (List ℕ)
remove_free_blocks [] lists = lists
remove_free_blocks (b ∷ bs) lists = remove_free_blocks bs (remove_free_block b lists)

-- The first list from `from` on that is not empty, with its top block.
unfoldable pub first_free : (from i : ℕ) → List (List ℕ) → Option (ℕ × ℕ)
first_free from i [] = none
first_free from i (l ∷ ls) =
    let rest = first_free from (suc i) ls in
    if ltb i from then rest else elim l [ [] ↦ rest | x ∷ _ ↦ some (i, x) ]

-- SplitBlock on the list of blocks: a new block, in use, in front of what is left of block `x`.
unfoldable pub split_block : (x fresh count : ℕ) → List TemporaryBlock → List TemporaryBlock
split_block x fresh count [] = []
split_block x fresh count (b ∷ bs) =
    if b.name == x
    then record { name = fresh; start_lba = b.start_lba; lba_count = count; is_free = false }
      ∷ record b {
        start_lba = add64 b.start_lba count;
        lba_count = sub64 b.lba_count count;
        is_free = true;
      }
      ∷ bs
    else b ∷ split_block x fresh count bs

-- compare_exchange_weak in a loop, with no other thread.
unfoldable pub raise : ℕ → ℕ → ℕ
raise peak current = if ltb peak current then current else peak

unfoldable pub count_bytes : ℕ → Manager → Manager
count_bytes count m =
    let current = add64 m.active_temp_bytes (mul64 count 4096) in
    record m { active_temp_bytes = current; peak_temp_bytes = raise m.peak_temp_bytes current }

-- AllocateBlock once the free block `b`, named `x` and at the top of list `i`, is found: it is popped, split if
-- it is larger than asked for, and marked as used.
unfoldable pub take_block : (count i x : ℕ) → TemporaryBlock → Manager → ℕ × Manager
take_block count i x b m =
    let lists = pop_free_block i m.blocks_free in
    if ltb count b.lba_count
    then (
      m.next_name,
      record m {
        blocks = split_block x m.next_name count m.blocks;
        blocks_free = push_free_block (record b { lba_count = sub64 b.lba_count count }) lists;
        next_name = m.next_name + 1;
      },
    )
    else (x, record m { blocks = update_block x (set_free false) m.blocks; blocks_free = lists })

unfoldable pub allocate_block : ℕ → Cmd Manager ℕ
allocate_block count m = elim (first_free (get_free_list_index count) 0 m.blocks_free) [
  | none ↦ err no_free_block m
  | some (i, x) ↦ elim (find_block x m.blocks) [
    | none ↦ err null_dereference m
    | some b ↦ let (y, m') = take_block count i x b m in ok y (count_bytes count m')
  ]
]

-- CoalesceFreeBlocks around block `b`: its list with the neighbours merged, and the neighbours that
-- are gone. `before` is previous_block, and the head of `after` is next_block.
unfoldable pub merge_around :
    (before : Option TemporaryBlock)
    → TemporaryBlock
    → (after : List TemporaryBlock) → List TemporaryBlock × List TemporaryBlock
merge_around (some p) b (n ∷ after) =
    if p.is_free && n.is_free
    then (
      record b {
        start_lba = p.start_lba;
        lba_count = add64 b.lba_count (add64 p.lba_count n.lba_count);
      }
          ∷ after,
      p ∷ n ∷ [],
    )
    else if p.is_free
    then (
      record b { start_lba = p.start_lba; lba_count = add64 b.lba_count p.lba_count } ∷ n ∷ after,
      p ∷ [],
    )
    else if n.is_free
    then (p ∷ record b { lba_count = add64 b.lba_count n.lba_count } ∷ after, n ∷ [])
    else (p ∷ b ∷ n ∷ after, [])
merge_around (some p) b [] =
    if p.is_free
    then (
      record b { start_lba = p.start_lba; lba_count = add64 b.lba_count p.lba_count } ∷ [],
      p ∷ [],
    )
    else (p ∷ b ∷ [], [])
merge_around none b (n ∷ after) =
    if n.is_free
    then (record b { lba_count = add64 b.lba_count n.lba_count } ∷ after, n ∷ [])
    else (b ∷ n ∷ after, [])
merge_around none b [] = (b ∷ [], [])

unfoldable pub coalesce_behind :
    ℕ → TemporaryBlock → List TemporaryBlock → List TemporaryBlock × List TemporaryBlock
coalesce_behind x p [] = (p ∷ [], [])
coalesce_behind x p (b ∷ after) =
    let rest = coalesce_behind x b after in
    if b.name == x then merge_around (some p) b after else (p ∷ rest.0, rest.1)

unfoldable pub coalesce_free_blocks :
    ℕ → List TemporaryBlock → List TemporaryBlock × List TemporaryBlock
coalesce_free_blocks x [] = ([], [])
coalesce_free_blocks x (b ∷ after) =
    if b.name == x then merge_around none b after else coalesce_behind x b after

unfoldable pub free_block : ℕ → Cmd Manager (Unit {0})
free_block x m = elim (find_block x m.blocks) [
  | none ↦ err null_dereference m
  | some b ↦
      let (blocks, gone) = coalesce_free_blocks x (update_block x (set_free true) m.blocks) in
      let lists = remove_free_blocks gone m.blocks_free in
      elim (find_block x blocks) [
        | none ↦ err null_dereference m
        | some merged ↦ ok tt (record m {
          blocks = blocks;
          blocks_free = push_free_block merged lists;
          active_temp_bytes = sub64 m.active_temp_bytes (mul64 b.lba_count 4096);
        })
      ]
]
