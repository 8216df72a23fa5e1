-- ===== src/Tests/Disk.antt =====
-- A device that is a memory, and a file system on it with the database "a" open.
use nvmefs.Prelude.{
  ℕ, zero, suc, ◌+◌, ◌-◌, ◌%◌, ◌≡◌, refl, ap, Bool, string_eq, false, inl, inr, true, List, [], ◌∷◌,
  ◌++◌, none, some, if◌then◌else◌, ◌==◌, length, take, drop, get_or, bytes_at, within, replicate,
  Str, codes, str_eq, lookup, arith, All, ok, final, add64, sub64, Cmd,
}
use nvmefs.Device.{CmdContext}
use nvmefs.Engine.Interface.{BlockDevice, IsFaithful, first_byte, read_returns, write_returns}
use nvmefs.FileSystem.Files.{ReadAt, WriteAt, read_at-ReadAt, write_at-WriteAt}
use nvmefs.FileSystem.Handles.{IsFileOf, open_file-handle, read_at-write_at-open_file}
use nvmefs.FileSystem.Open.{open_file, add_metrics}
use nvmefs.FileSystem.Isolation.{write_at-others, read_at-write_at, file_byte}
use nvmefs.FileSystem.Metadata.{sync_locations, sync_region, write_metadata, try_load_metadata}
use nvmefs.FileSystem.Parts.{IsOnDevice}
use nvmefs.FileSystem.Restart.{HasRoom, Restarted, write_metadata-Restarted}
use nvmefs.FileSystem.State.{
  Layout, Setup, FileSystem, NvmeFileHandle, no_metrics, new_file_system,
  calculate_required_lba_count, prepare_command, device_read, device_write, with_state,
  with_metadata,
}
use nvmefs.FileSystem.Strategies.{
  on_db, strategy_get_lba, strategy_is_lba_in_range, strategy_update_metadata,
}
use nvmefs.FileSystem.Transfer.{read_at, write_at, with_strategy}
use nvmefs.Metadata.Defs.{find_region, DatabaseRegion, GlobalMetadata, zero_region}
use nvmefs.Metadata.Packed.{Packed, IsVacant}
use nvmefs.PathHandler.Defs.{
  get_file_type, extract_database_name, strip_suffix, strip_prefix, database,
}
use nvmefs.Strategy.Defs.{lba_of, in_range, db_get_lba, db_is_lba_in_range, db_update_metadata}
use nvmefs.Strategy.Range.{data_part, log_part}
use nvmefs.Strategy.Temporary.{database_strategy}
use nvmefs.Tests.Files.{region_b, two_regions}
use nvmefs.Tests.Layout.{geometry, geometry-IsSane, region_a, config_of}
use nvmefs.Tests.Paths.{holds, begins, ends, strings}

abbrev memory_write : CmdContext → List ℕ → Cmd (ℕ → ℕ) (Unit {0})
memory_write ctx src f = ok tt (λ k.
    if within (first_byte geometry ctx) ctx.nr_bytes k
    then get_or src (k - first_byte geometry ctx) 0
    else f k)

abbrev memory : BlockDevice
memory = record {
  State = ℕ → ℕ;
  byte = λ f. f;
  read = λ ctx f. ok (bytes_at f (first_byte geometry ctx) ctx.nr_bytes) f;
  write = memory_write;
}

memory-IsFaithful : IsFaithful geometry memory
memory-IsFaithful = record {
  reads = λ ctx f. read_returns (λ k. refl) (λ c. refl);
  writes = λ ctx src f. write_returns (λ c len k. refl);
}

-- A layout of one number for each field, and 101 for a path.
abbrev encode_regions : List DatabaseRegion → List ℕ
encode_regions [] = []
encode_regions (r ∷ rs) =
    r.db_path_size
      ∷ r.db_start
      ∷ r.wal_start
      ∷ r.wal_end
      ∷ r.db_location
      ∷ r.wal_location
      ∷ (if r.is_active then 1 else 0)
      ∷ take 101 (r.db_path ++ replicate 101 0)
    ++ encode_regions rs

abbrev before_zero : List ℕ → Str
before_zero [] = []
before_zero (c ∷ cs) = if c == 0 then [] else c ∷ before_zero cs

abbrev decode_regions : ℕ → List ℕ → List DatabaseRegion
decode_regions zero bs = []
decode_regions (suc n) bs =
    record {
      db_path_size = get_or bs 0 0;
      db_path = before_zero (take 101 (drop 7 bs));
      db_start = get_or bs 1 0;
      wal_start = get_or bs 2 0;
      wal_end = get_or bs 3 0;
      db_location = get_or bs 4 0;
      wal_location = get_or bs 5 0;
      is_active = get_or bs 6 0 == 1;
    }
    ∷ decode_regions n (drop 108 bs)

abbrev word_layout : Layout
word_layout = record {
  size = 1730;
  encode = λ g. g.tmp_start ∷ g.active_databases ∷ encode_regions g.databases;
  decode = λ bs. record {
    tmp_start = get_or bs 0 0;
    active_databases = get_or bs 1 0;
    databases = decode_regions 16 (drop 2 bs);
  };
}

abbrev setup : Setup
setup = record {
  geometry = geometry;
  config = config_of [];
  is_nvme = true;
  util = strings;
  equals = str_eq;
  stoi = λ s. none;
  get_file_name = λ s. s;
  layout = word_layout;
}

abbrev table : GlobalMetadata
table = record {
  tmp_start = 900;
  active_databases = 2;
  databases = two_regions ++ replicate 14 zero_region;
}

abbrev mounted : FileSystem memory
mounted = record {
  device = λ k. k % 7;
  metadata = some table;
  temp_meta_manager = none;
  active_dbs = (codes "a", record { db_location = 40; wal_location = 103 }) ∷ [];
  metrics = record { total_spill_bytes = 0; per_db = (codes "a", no_metrics) ∷ [] };
  nvmefs_current_wal_bytes = 0;
  nvmefs_current_db_bytes = 0;
}

abbrev handle : NvmeFileHandle
handle = record {
  path = codes "nvmefs://a.db";
  file_type = some database;
  strategy = some (database_strategy region_a (codes "a"));
  op_state = some (codes "a");
  metrics_cache = some (codes "a");
  cursor_offset = 0;
}

region_a-IsOnDevice : IsOnDevice geometry region_a
region_a-IsOnDevice = record { sane = geometry-IsSane; inside = omega arith }

read_at-ReadAt_example :
    ReadAt setup region_a data_part 3 4095 mounted (read_at setup handle 3 4095 mounted)
read_at-ReadAt_example =
    read_at-ReadAt setup memory-IsFaithful region_a region_a-IsOnDevice data_part (codes "a") handle
      refl mounted 4095 3 (omega arith)

write_at-WriteAt_example :
    WriteAt setup region_a data_part handle
      (codes "a")
      (1 ∷ 2 ∷ 3 ∷ [])
      4095
      mounted
      (write_at setup handle (1 ∷ 2 ∷ 3 ∷ []) 4095 mounted)
unfolding lookup str_eq
write_at-WriteAt_example =
    write_at-WriteAt setup memory-IsFaithful region_a region_a-IsOnDevice data_part (codes "a")
      handle refl mounted 4095 (1 ∷ 2 ∷ 3 ∷ []) (record { db_location = 40; wal_location = 103 })
      refl (omega arith)

-- The file system after the write.
abbrev after_write : FileSystem memory
after_write = final (write_at setup handle (1 ∷ 2 ∷ 3 ∷ []) 4095 mounted)

table-Packed : Packed 1 1000 table.databases
table-Packed = inl (
  refl,
  omega arith,
  omega arith,
  omega arith,
  inl (refl, omega arith, omega arith, omega arith, inr (refl, omega arith, vacant 13)),
)
  where
    vacant : (n : ℕ) → All IsVacant (replicate n zero_region)
    vacant zero = tt
    vacant (suc n) = (refl, vacant n)

write_at-others_example :
    file_byte setup region_b log_part after_write 5 ≡ file_byte setup region_b log_part mounted 5
unfolding lookup str_eq
write_at-others_example =
    write_at-others setup memory-IsFaithful region_a region_a-IsOnDevice data_part (codes "a")
      handle refl mounted (1 ∷ 2 ∷ 3 ∷ []) (record { db_location = 40; wal_location = 103 }) refl
      4095 (omega arith) table.databases 0 1 region_b log_part table-Packed refl refl refl refl
      (inl (λ e. omega arith)) 5 (omega arith)

setup-HasRoom : HasRoom setup
setup-HasRoom = record {
  sane = geometry-IsSane;
  blocks = omega arith;
  few_bytes = omega arith;
  words = omega arith;
}

write_metadata-Restarted_example : Restarted table mounted.active_dbs (
    try_load_metadata setup
      (new_file_system memory (final (write_metadata setup mounted)).device mounted.metrics 0 0))
unfolding sync_locations sync_region lookup str_eq write_metadata with_metadata device_write
    new_file_system
write_metadata-Restarted_example =
    write_metadata-Restarted setup setup-HasRoom memory-IsFaithful mounted
      (final (write_metadata setup mounted)) table mounted.metrics 0 0 refl
      (record { size = refl; decoded = refl }) refl

abbrev four_bytes : List ℕ
four_bytes = bytes_at after_write.device (4096 + 4094) 4

read_at-write_at_example :
    (length four_bytes ≡ 4)
    × (get_or four_bytes 2 0 ≡ (
        if within 4095 3 (4094 + 2)
        then get_or (1 ∷ 2 ∷ 3 ∷ []) (4094 + 2 - 4095) 0
        else file_byte setup region_a data_part mounted (4094 + 2)))
unfolding lookup str_eq read_at write_at with_strategy strategy_get_lba strategy_is_lba_in_range
    strategy_update_metadata prepare_command device_read device_write with_state on_db db_get_lba
    db_is_lba_in_range db_update_metadata calculate_required_lba_count lba_of in_range add64 sub64
read_at-write_at_example =
    read_at-write_at setup memory-IsFaithful region_a region_a-IsOnDevice data_part (codes "a")
      handle refl mounted (1 ∷ 2 ∷ 3 ∷ []) (record { db_location = 40; wal_location = 103 }) refl
      4095 (omega arith) after_write (final (read_at setup handle 4 4094 after_write)) handle 4 4094
      2 four_bytes refl refl (omega arith) refl (omega arith)

path_a-IsFileOf : IsFileOf setup (codes "nvmefs://a.db") (codes "a") data_part
unfolding str_eq get_file_type extract_database_name strip_suffix strip_prefix holds begins ends
path_a-IsFileOf = record { other = refl; type = refl; named = refl }

-- The states after a first and a second handle of the file.
abbrev opened_once : FileSystem memory
opened_once = record mounted { metrics = add_metrics (codes "a") mounted.metrics }

abbrev opened_twice : FileSystem memory
opened_twice = record opened_once { metrics = add_metrics (codes "a") opened_once.metrics }

abbrev opened_written : FileSystem memory
opened_written = final (write_at setup handle (1 ∷ 2 ∷ 3 ∷ []) 4095 opened_twice)

read_at-write_at-open_file_example :
    (length four_bytes ≡ 4)
    × (get_or four_bytes 2 0 ≡ (
        if within 4095 3 (4094 + 2)
        then get_or (1 ∷ 2 ∷ 3 ∷ []) (4094 + 2 - 4095) 0
        else file_byte setup region_a data_part mounted (4094 + 2)))
unfolding lookup str_eq read_at write_at with_strategy strategy_get_lba strategy_is_lba_in_range
    strategy_update_metadata prepare_command device_read device_write with_state on_db db_get_lba
    db_is_lba_in_range db_update_metadata calculate_required_lba_count lba_of in_range add64 sub64
    find_region
read_at-write_at-open_file_example =
    read_at-write_at-open_file setup memory-IsFaithful region_a region_a-IsOnDevice data_part
      (codes "a") mounted table refl refl (record { db_location = 40; wal_location = 103 }) refl
      refl (codes "nvmefs://a.db") (codes "nvmefs://a.db") true false handle handle opened_once
      opened_twice opened_written (final (read_at setup handle 4 4094 opened_written))
      (1 ∷ 2 ∷ 3 ∷ []) 4095 4 4094 2 four_bytes path_a-IsFileOf path_a-IsFileOf
      (open_a mounted refl refl true) (open_a opened_once refl refl false) (omega arith) refl
      (omega arith) refl (omega arith)
  where
    open_a :
        (s : FileSystem memory)
        → s.metadata ≡ some table
        → s.active_dbs ≡ mounted.active_dbs
        → (create : Bool)
        → open_file setup (codes "nvmefs://a.db") create s
          ≡ ok handle (record s { metrics = add_metrics (codes "a") s.metrics })
    open_a s has dbs create =
        open_file-handle setup s table has (codes "a") (codes "nvmefs://a.db") create data_part
          region_a (record { db_location = 40; wal_location = 103 }) refl path_a-IsFileOf.other
          path_a-IsFileOf.type path_a-IsFileOf.named refl (ap (λ m. lookup (codes "a") m) dbs)
