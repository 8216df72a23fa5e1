-- ===== src/FileSystem/Open.antt =====
-- OpenFile, and the operations on a file by its name: FileExists, RemoveFile, RemoveFiles.
use nvmefs.Prelude.{
  Bool, true, false, not, ◌&&◌, List, [], ◌∷◌, Option, none, some, if◌then◌else◌, Str, str_eq,
  lookup, insert, string_eq, not_nvme_device, no_database_attached, ok, err, Cmd, pure, throw,
  throw_if, ◌>>=◌, ◌>>◌, inl, inr,
}
use nvmefs.Engine.Interface.{BlockDevice}
use nvmefs.FileSystem.State.{
  Setup, FileSystem, NvmeFileHandle, NvmeMetricsState, no_metrics, get_runtime_state, with_temp,
}
use nvmefs.FileSystem.Metadata.{
  metadata_handle, try_load_metadata, initialize_metadata, allocate_new_database_region,
}
use nvmefs.FileSystem.Strategies.{strategy_file_exists, strategy_remove_file}
use nvmefs.Metadata.Defs.{DatabaseRegion, find_region}
use nvmefs.PathHandler.Defs.{
  NvmeFileType, database, wal, temporary, global_metadata, unknown, global_metadata_path,
  get_file_type, extract_database_name, is_internal_path,
}
use nvmefs.Strategy.Temporary.{FileStrategy, get_strategy, temp_create_file}

abbrev pub is_database : NvmeFileType → Bool
is_database database = true
is_database wal = false
is_database temporary = false
is_database global_metadata = false
is_database unknown = false

abbrev pub is_temporary : NvmeFileType → Bool
is_temporary database = false
is_temporary wal = false
is_temporary temporary = true
is_temporary global_metadata = false
is_temporary unknown = false

-- Neither a temporary file nor of unknown type.
abbrev pub is_of_database : NvmeFileType → Bool
is_of_database database = true
is_of_database wal = true
is_of_database temporary = false
is_of_database global_metadata = true
is_of_database unknown = false

-- The metrics of a database, made at its first use.
unfoldable pub add_metrics : Str → NvmeMetricsState → NvmeMetricsState
add_metrics name m = elim (lookup name m.per_db) [
  | none ↦ record m { per_db = insert name no_metrics m.per_db }
  | some old ↦ m
]

module _ {d : BlockDevice} (e : Setup) where
  unfoldable pub can_handle_file : Str → Cmd (FileSystem d) Bool
  can_handle_file path = pure (is_internal_path e.util path)

  -- GetNvmeDevice: the cast of the device.
  unfoldable pub get_nvme_device : Cmd (FileSystem d) (Unit {0})
  get_nvme_device = throw_if (not e.is_nvme) not_nvme_device

  unfoldable pub get_region_for_path : Str → FileSystem d → Option DatabaseRegion
  get_region_for_path name s = elim s.metadata [
    | none ↦ none
    | some g ↦ find_region name g.databases
  ]

  -- The call of the factory, with the region and the runtime state of a database.
  unfoldable pub strategy_for : Str → Str → Cmd (FileSystem d) FileStrategy
  strategy_for path db_name s =
      elim (get_strategy e.util path (get_region_for_path db_name s)
        (get_runtime_state db_name s)) [ inl er ↦ err er s | inr strategy ↦ ok strategy s ]

  -- The first part of OpenFile: the metadata is loaded, or made for a database file.
  unfoldable pub load_or_initialize : NvmeFileType → Str → Cmd (FileSystem d) (Unit {0})
  load_or_initialize type db_name = do
    loaded ← try_load_metadata e
    if loaded
        then pure tt
        else if is_database type
        then initialize_metadata e db_name
        else throw no_database_attached

  -- The second: a database without a region gets one, if the flags ask for it.
  unfoldable pub ensure_region :
      NvmeFileType → Str → (create : Bool) → Cmd (FileSystem d) (Unit {0})
  ensure_region type db_name create s = elim (get_region_for_path db_name s) [
    | some r ↦ ok tt s
    | none ↦
        (if create && is_of_database type then allocate_new_database_region e db_name else pure tt)
          s
  ]

  -- The last: the handle, with the runtime state and the metrics of its database.
  unfoldable pub make_handle :
      Str → Str → NvmeFileType → FileStrategy → Cmd (FileSystem d) NvmeFileHandle
  make_handle path db_name type strategy s =
      let handle : NvmeFileHandle = record {
        path = path;
        file_type = some type;
        strategy = some strategy;
        op_state = none;
        metrics_cache = none;
        cursor_offset = 0;
      } in
      if is_of_database type
      then ok
          (record handle { op_state = get_runtime_state db_name s; metrics_cache = some db_name })
          (record s { metrics = add_metrics db_name s.metrics })
      else ok handle s

  -- OpenFile; `create` is the flag CreateFileIfNotExists.
  unfoldable pub open_file : Str → (create : Bool) → Cmd (FileSystem d) NvmeFileHandle
  open_file path create =
      let db_name = extract_database_name e.util path in
      let type = get_file_type e.util path in
      if str_eq path global_metadata_path then pure metadata_handle else (do
        load_or_initialize type db_name
        ensure_region type db_name create
        get_nvme_device
        strategy ← strategy_for path db_name
        if create && is_temporary type then with_temp (temp_create_file e.stoi path) else pure tt
        make_handle path db_name type strategy)

  unfoldable pub file_exists : Str → Cmd (FileSystem d) Bool
  file_exists path = do
    loaded ← try_load_metadata e
    if loaded
        then (do
          get_nvme_device
          strategy ← strategy_for path (extract_database_name e.util path)
          strategy_file_exists e strategy path)
        else pure false

  unfoldable pub remove_file : Str → Cmd (FileSystem d) (Unit {0})
  remove_file path = do
    loaded ← try_load_metadata e
    if loaded
        then (do
          get_nvme_device
          strategy ← strategy_for path (extract_database_name e.util path)
          strategy_remove_file e strategy path)
        else pure tt

  unfoldable pub try_remove_file : Str → Cmd (FileSystem d) Bool
  try_remove_file path = remove_file path >> pure true

  unfoldable pub remove_files : List Str → Cmd (FileSystem d) (Unit {0})
  remove_files [] = pure tt
  remove_files (f ∷ fs) = remove_file f >> remove_files fs
