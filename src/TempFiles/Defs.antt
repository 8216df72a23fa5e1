-- ===== src/TempFiles/Defs.antt =====
-- TempFileMetadata and TemporaryFileMetadataManager (temporary_file_metadata_manager.cpp), one call at
-- a time: each call holds its locks for the whole of it, but for the first, read-only look at the maps
-- in GetOrCreateFile and GetLBA, which they repeat or which decides nothing else. A block is a name,
-- as in BlockManager. std::stoi is a parameter, which gives the int as a word of 32 bits.
use nvmefs.Prelude.{
  ℕ, zero, suc, ◌+◌, ◌-◌, ◌*◌, ◌/◌, ◌%◌, ◌^◌, Bool, true, false, not, List, [], ◌∷◌, Option, none,
  some, ltb, ◌==◌, if◌then◌else◌, length, add64, sub64, mul64, Str, codes, str_lt, find,
  find_last_of, take, drop, lookup, insert, erase, insert_sorted, nat_eq, string_eq, Error,
  null_dereference, block_size_mismatch, unknown_buffer_size, bad_number, Run, ok, err, Cmd,
  and_then, ◌>>=◌, pure, map, ◌⊎◌, inl, inr,
}
use nvmefs.BlockManager.Defs.{
  Manager, TemporaryBlock, new_manager, allocate_block, free_block, find_block,
}

pub record TempFileMetadata : Type 0 where
  pub is_active : Bool
  pub file_index : ℕ
  pub block_size : ℕ
  pub nr_blocks : ℕ
  pub lba_location : ℕ
  pub block_map : List (ℕ × ℕ)

-- The allocator, and the ranges that were sent to the device as deallocated, the last one first.
pub record Pool : Type 0 where
  pub block_manager : Manager
  pub deallocated : List (ℕ × ℕ)

-- The atomic counters nvmefs_active_temp_files and nvmefs_peak_temp_files are part of the state, as
-- words in two's complement.
pub record TempManager : Type 0 where
  pub pool : Pool
  pub lba_size : ℕ
  pub lba_count : ℕ
  pub files : List (Str × TempFileMetadata)
  pub active_temp_files : ℕ
  pub peak_temp_files : ℕ

-- The constructor. The counters of bytes and of files outlive the object.
unfoldable pub new_temp_manager :
    (bytes peak_bytes active peak start end lba_size : ℕ) → TempManager
unfolding new_manager
new_temp_manager bytes peak_bytes active peak start end lba_size = record {
  pool = record { block_manager = new_manager bytes peak_bytes start end; deallocated = [] };
  lba_size = lba_size;
  lba_count = sub64 end start;
  files = [];
  active_temp_files = active;
  peak_temp_files = peak;
}

abbrev pub buffer_sizes : List (Str × ℕ)
buffer_sizes =
    (codes "S32K", 32768)
    ∷ (codes "S64K", 65536)
    ∷ (codes "S96K", 98304)
    ∷ (codes "S128K", 131072)
    ∷ (codes "S160K", 163840)
    ∷ (codes "S192K", 196608)
    ∷ (codes "S224K", 229376)
    ∷ (codes "DEFAULT", 262144)
    ∷ []

unfoldable pub get_buffer_size : Str → Option ℕ
get_buffer_size s = lookup s buffer_sizes

-- The conversion of an int to an idx_t.
unfoldable pub sign_extend : ℕ → ℕ
sign_extend n = if ltb n (2 ^ 31) then n else n + (2 ^ 64 - 2 ^ 32)

-- One past a position, where npos wraps to 0.
unfoldable pub behind : Option ℕ → ℕ
behind none = 0
behind (some i) = suc i

-- substr from a position up to another one, or to the end.
unfoldable pub piece : Str → ℕ → Option ℕ → Str
piece s from none = drop from s
piece s from (some to) = take (to - from) (drop from s)

-- The name of a temporary file: what stands between its last '_' and the '-' behind it, and what
-- stands between this '-' and the '.' behind it.
unfoldable pub size_text : Str → Str
size_text filename =
    let from = behind (find_last_of filename 95) in piece filename from (find filename 45 from)

unfoldable pub index_text : Str → Str
index_text filename =
    let from = behind (find filename 45 (behind (find_last_of filename 95))) in
    piece filename from (find filename 46 from)

-- CreateTempFileMetadata. The shift and the product of nr_blocks are those of a 32-bit int.
unfoldable pub create_temp_file_metadata : (Str → Option ℕ) → Str → Error ⊎ TempFileMetadata
create_temp_file_metadata stoi filename = elim (get_buffer_size (size_text filename)) [
  | none ↦ inl unknown_buffer_size
  | some size ↦ elim (stoi (index_text filename)) [
    | none ↦ inl bad_number
    | some index ↦ inr (record {
      is_active = true;
      file_index = sign_extend index;
      block_size = size;
      nr_blocks = sign_extend (2 ^ index * 4000 % 2 ^ 32);
      lba_location = 0;
      block_map = [];
    })
  ]
]

-- Raising the peak, a comparison of signed words.
unfoldable pub raise_files : ℕ → ℕ → ℕ
raise_files peak current =
    if ltb (add64 peak (2 ^ 63)) (add64 current (2 ^ 63)) then current else peak

-- A file that was made is entered, and counted.
unfoldable pub add_file :
    Str → TempManager → Error ⊎ TempFileMetadata → Run TempManager TempFileMetadata
add_file filename s (inl e) = err e s
add_file filename s (inr tf) =
    let current = add64 s.active_temp_files 1 in
    ok tf (record s {
      files = insert_sorted str_lt filename tf s.files;
      active_temp_files = current;
      peak_temp_files = raise_files s.peak_temp_files current;
    })

unfoldable pub get_or_create_file : (Str → Option ℕ) → Str → Cmd TempManager TempFileMetadata
get_or_create_file stoi filename s = elim (lookup filename s.files) [
  | some tf ↦ ok tf s
  | none ↦ add_file filename s (create_temp_file_metadata stoi filename)
]

unfoldable pub create_file : (Str → Option ℕ) → Str → Cmd TempManager (Unit {0})
create_file stoi filename = get_or_create_file stoi filename >>= λ tf. pure tt

-- DSMBlock: the range of the block; the result of the command is not looked at.
unfoldable pub dsm_range : TemporaryBlock → ℕ × ℕ
dsm_range b = (b.start_lba, b.lba_count % 2 ^ 32)

-- DSMBlock and FreeBlock.
unfoldable pub release : ℕ → Cmd Pool (Unit {0})
release x p = elim (find_block x p.block_manager.blocks) [
  | none ↦ err null_dereference p
  | some b ↦
      let sent = dsm_range b ∷ p.deallocated in
      elim (free_block x p.block_manager) [
        | ok u m ↦ ok tt (record { block_manager = m; deallocated = sent })
        | err e m ↦ err e (record { block_manager = m; deallocated = sent })
      ]
]

-- The loop over a block map.
unfoldable pub release_all : List (ℕ × ℕ) → Cmd Pool (Unit {0})
release_all [] p = ok tt p
release_all ((i, x) ∷ kvs) p = and_then (release x p) (λ u q. release_all kvs q)

-- A block that was allocated goes into the block map at an index.
unfoldable pub place_block : ℕ → List (ℕ × ℕ) × Pool → Run Manager ℕ → Run (List (ℕ × ℕ) × Pool) ℕ
place_block index (blocks, p) (err e m) = err e (blocks, record p { block_manager = m })
place_block index (blocks, p) (ok x m) =
    let blocks' = insert_sorted ltb index x blocks in
    elim (find_block x m.blocks) [
      | none ↦ err null_dereference (blocks', record p { block_manager = m })
      | some b ↦ ok b.start_lba (blocks', record p { block_manager = m })
    ]

-- What GetLBA does with a file: the first LBA of its block at an index, which is allocated first if
-- the file has none there. The state is the file's block map and the allocator.
unfoldable pub block_at : (index nr_lbas : ℕ) → List (ℕ × ℕ) × Pool → Run (List (ℕ × ℕ) × Pool) ℕ
block_at index nr_lbas (blocks, p) = elim (lookup index blocks) [
  | some x ↦ elim (find_block x p.block_manager.blocks) [
    | none ↦ err null_dereference (blocks, p)
    | some b ↦ ok b.start_lba (blocks, p)
  ]
  | none ↦ place_block index (blocks, p) (allocate_block nr_lbas p.block_manager)
]

abbrev pub with_file : Str → TempFileMetadata → List (ℕ × ℕ) → Pool → TempManager → TempManager
with_file filename tf blocks p s = record s {
  files = insert filename (record tf { block_map = blocks }) s.files;
  pool = p;
}

-- The manager after a run on the block map of one file and on the allocator.
unfoldable pub store_result {ℓ} :
    {A : Type ℓ}
    → Str
    → TempFileMetadata
    → TempManager
    → Run (List (ℕ × ℕ) × Pool) A
    → Run TempManager A
store_result filename tf s (ok a (blocks, p)) = ok a (with_file filename tf blocks p s)
store_result filename tf s (err e (blocks, p)) = err e (with_file filename tf blocks p s)

unfoldable pub get_lba : Str → (location nr_lbas : ℕ) → Cmd TempManager ℕ
get_lba filename location nr_lbas s = elim (lookup filename s.files) [
  | none ↦ err null_dereference s
  | some tf ↦
      if not (nr_lbas == (tf.block_size / s.lba_size))
      then err block_size_mismatch s
      else store_result filename tf s
          (block_at (location / tf.block_size) nr_lbas (tf.block_map, s.pool))
]

-- The loop of TruncateFile, from block index `i - 1` down to `to`. A missing entry is a null pointer.
unfoldable pub truncate_blocks : (to i : ℕ) → Cmd (List (ℕ × ℕ) × Pool) (Unit {0})
truncate_blocks to zero s = ok tt s
truncate_blocks to (suc i) (blocks, p) = elim (ltb to (suc i)) [
  | false ↦ ok tt (blocks, p)
  | true ↦ elim (lookup i blocks) [
    | none ↦ err null_dereference (blocks, p)
    | some x ↦ elim (release x p) [
      | ok u q ↦ truncate_blocks to i (erase i blocks, q)
      | err e q ↦ err e (blocks, q)
    ]
  ]
]

unfoldable pub truncate_file : Str → (new_size : ℕ) → Cmd TempManager (Unit {0})
truncate_file filename new_size s = elim (lookup filename s.files) [
  | none ↦ err null_dereference s
  | some tf ↦
      store_result filename tf s
        (truncate_blocks (new_size / tf.block_size) (length tf.block_map) (tf.block_map, s.pool))
]

unfoldable pub delete_file : Str → Cmd TempManager (Unit {0})
delete_file filename s = elim (lookup filename s.files) [
  | none ↦ err null_dereference s
  | some tf ↦ elim (release_all tf.block_map s.pool) [
    | ok u p ↦ ok tt (record s {
      pool = p;
      files = erase filename s.files;
      active_temp_files = sub64 s.active_temp_files 1;
    })
    | err e p ↦ err e (record s { pool = p })
  ]
]

unfoldable pub file_exists : Str → TempManager → Bool
file_exists filename s = elim (lookup filename s.files) [ none ↦ false | some tf ↦ true ]

-- The bytes that a file's blocks stand for.
unfoldable pub file_bytes : TempFileMetadata → ℕ
file_bytes tf = mul64 tf.block_size (length tf.block_map)

unfoldable pub get_file_size_lba : Str → Cmd TempManager ℕ
get_file_size_lba filename s = elim (lookup filename s.files) [
  | none ↦ err null_dereference s
  | some tf ↦ ok (file_bytes tf / s.lba_size) s
]

unfoldable pub get_seek_bound : Str → Cmd TempManager ℕ
get_seek_bound filename s = elim (lookup filename s.files) [
  | none ↦ err null_dereference s
  | some tf ↦ ok (file_bytes tf) s
]

-- The loop of Clear.
unfoldable pub release_files : List (Str × TempFileMetadata) → Cmd Pool (Unit {0})
release_files [] p = ok tt p
release_files ((f, tf) ∷ fs) p = and_then (release_all tf.block_map p) (λ u q. release_files fs q)

unfoldable pub clear : Cmd TempManager (Unit {0})
clear s = elim (release_files s.files s.pool) [
  | ok u p ↦ ok tt (record s { pool = p; files = []; active_temp_files = 0 })
  | err e p ↦ err e (record s { pool = p })
]

unfoldable pub used_bytes : List (Str × TempFileMetadata) → ℕ → ℕ
used_bytes [] used = used
used_bytes ((f, tf) ∷ fs) used = used_bytes fs (add64 used (file_bytes tf))

unfoldable pub get_available_space : (lba_count lba_start : ℕ) → TempManager → ℕ
get_available_space lba_count lba_start s =
    sub64 (mul64 (sub64 (sub64 lba_count 1) lba_start) s.lba_size) (used_bytes s.files 0)

-- ListFiles: the names that the callback is given. GetFileName is DuckDB's.
unfoldable pub list_files : (Str → Str) → TempManager → List Str
list_files get_file_name s = map (λ kv. get_file_name kv.0) s.files
