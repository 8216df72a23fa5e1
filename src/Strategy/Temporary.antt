-- ===== src/Strategy/Temporary.antt =====
-- TemporaryFileStrategy, which forwards to the temporary files, and FileStrategyFactory.
use nvmefs.Prelude.{
  ℕ, Bool, Option, none, some, mul64, Str, Error, no_such_file, unknown_file_type, ok, err, Cmd,
  ◌⊎◌, inl, inr,
}
use nvmefs.Device.{DeviceGeometry}
use nvmefs.Metadata.Defs.{DatabaseRegion}
use nvmefs.PathHandler.Defs.{
  StringUtil, NvmeFileType, database, wal, temporary, global_metadata, unknown, get_file_type,
}
use nvmefs.TempFiles.Defs.{
  TempManager, get_lba, file_exists, get_file_size_lba, truncate_file, delete_file, create_file,
  get_available_space, clear,
}
use nvmefs.Strategy.Defs.{in_range}

unfoldable pub temp_get_lba :
    Str → (nr_bytes location nr_lbas : ℕ) → DeviceGeometry → Cmd TempManager ℕ
unfolding get_lba
temp_get_lba filename nr_bytes location nr_lbas geo = get_lba filename location nr_lbas

unfoldable pub temp_file_exists : Str → TempManager → Bool
temp_file_exists filename = file_exists filename

unfoldable pub temp_file_size_lba : Str → Cmd TempManager ℕ
temp_file_size_lba filename = get_file_size_lba filename

unfoldable pub temp_truncate : Str → ℕ → Cmd TempManager (Unit {0})
temp_truncate filename new_size = truncate_file filename new_size

unfoldable pub temp_remove_file : Str → Cmd TempManager (Unit {0})
temp_remove_file filename = delete_file filename

unfoldable pub temp_seek_bound : Str → DeviceGeometry → Cmd TempManager ℕ
temp_seek_bound filename geo s = elim (get_file_size_lba filename s) [
  | ok lbas t ↦ ok (mul64 lbas geo.lba_size) t
  | err e t ↦ err e t
]

-- The range check on the area from the start of temporary files to the end of the device.
unfoldable pub temp_is_lba_in_range : (tmp_start : ℕ) → DeviceGeometry → (start count : ℕ) → Bool
unfolding in_range
temp_is_lba_in_range tmp_start geo start count = in_range tmp_start geo.lba_count start count

unfoldable pub temp_create_file : (Str → Option ℕ) → Str → Cmd TempManager (Unit {0})
temp_create_file stoi filename = create_file stoi filename

unfoldable pub temp_available_space : (tmp_start : ℕ) → DeviceGeometry → TempManager → ℕ
temp_available_space tmp_start geo s = get_available_space geo.lba_count tmp_start s

unfoldable pub temp_clear_all : Cmd TempManager (Unit {0})
temp_clear_all = clear

-- The strategy for a file. Its region is the one that it points to, whose bounds never change, and the
-- location it refers to is that of the runtime state filed under a name.
pub data FileStrategy : Type 0 where
  temporary_strategy : FileStrategy
  database_strategy wal_strategy : (region : DatabaseRegion) (state : Str) → FileStrategy

-- DatabaseRuntimeState.
pub record RuntimeState : Type 0 where
  pub db_location : ℕ
  pub wal_location : ℕ

-- The switch over the types that are left, with a region and a state.
unfoldable pub strategy_of : NvmeFileType → DatabaseRegion → Str → Error ⊎ FileStrategy
strategy_of database region state = inr (database_strategy region state)
strategy_of wal region state = inr (wal_strategy region state)
strategy_of temporary region state = inl unknown_file_type
strategy_of global_metadata region state = inl unknown_file_type
strategy_of unknown region state = inl unknown_file_type

unfoldable pub needs_region :
    NvmeFileType → Option DatabaseRegion → Option Str → Error ⊎ FileStrategy
needs_region type (some region) (some state) = strategy_of type region state
needs_region type (some region) none = inl no_such_file
needs_region type none state = inl no_such_file

unfoldable pub get_strategy :
    StringUtil → Str → Option DatabaseRegion → Option Str → Error ⊎ FileStrategy
get_strategy u filename region state = elim (get_file_type u filename) [
  | temporary ↦ inr temporary_strategy
  | database ↦ needs_region database region state
  | wal ↦ needs_region wal region state
  | global_metadata ↦ needs_region global_metadata region state
  | unknown ↦ needs_region unknown region state
]
