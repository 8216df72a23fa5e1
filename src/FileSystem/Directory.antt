-- ===== src/FileSystem/Directory.antt =====
-- The other operations of NvmeFileSystem: sizes, truncation, seeking, directories, space, and its end.
use nvmefs.Prelude.{
  ℕ, ◌%◌, Bool, true, false, not, List, [], ◌∷◌, ◌++◌, map, Option, none, some, if◌then◌else◌, leb,
  ◌==◌, add64, mul64, Str, codes, lookup, string_eq, unknown_directory, no_metadata,
  seek_out_of_bounds, assertion, ok, Cmd, pure, throw, throw_if, get, modify, ◌>>=◌, ◌>>◌,
}
use nvmefs.Device.{DeviceGeometry}
use nvmefs.Engine.Interface.{BlockDevice}
use nvmefs.FileSystem.State.{
  Setup, FileSystem, NvmeFileHandle, set_file_pointer, with_temp, with_metadata,
}
use nvmefs.FileSystem.Metadata.{try_load_metadata, write_metadata}
use nvmefs.FileSystem.Open.{get_nvme_device, strategy_for}
use nvmefs.FileSystem.Strategies.{strategy_file_size_lba, strategy_truncate, strategy_seek_bound}
use nvmefs.FileSystem.Transfer.{with_strategy}
use nvmefs.Metadata.Defs.{DatabaseRegion}
use nvmefs.PathHandler.Defs.{
  NvmeFileType, database, wal, temporary, global_metadata, unknown, path_prefix, tmp_dir_path,
  db_suffix, wal_suffix, get_file_type, extract_database_name,
}
use nvmefs.Strategy.Defs.{db_available_space, wal_available_space}
use nvmefs.Strategy.Temporary.{RuntimeState, temp_available_space, temp_clear_all}
use nvmefs.TempFiles.Defs.{list_files}

-- The names of the active databases, each with its log; no entry is a directory.
unfoldable pub region_entries : List DatabaseRegion → List (Str × Bool)
region_entries [] = []
region_entries (r ∷ rs) =
    if r.is_active
    then (r.db_path ++ db_suffix, false)
      ∷ (r.db_path ++ (db_suffix ++ wal_suffix), false)
      ∷ region_entries rs
    else region_entries rs

-- The space that is left in the open databases, added to what is summed up already.
unfoldable pub region_space :
    DeviceGeometry → List (Str × RuntimeState) → List DatabaseRegion → (total_avail : ℕ) → ℕ
region_space geo dbs [] total = total
region_space geo dbs (r ∷ rs) total = region_space geo dbs rs (
    if r.is_active
    then elim (lookup r.db_path dbs) [
      | none ↦ total
      | some st ↦
          add64 (add64 total (db_available_space r geo st.db_location))
            (wal_available_space r geo st.wal_location)
    ]
    else total)

-- The global counters that Truncate sets; those of the handle's database stay as they are.
unfoldable pub count_truncate : {d : BlockDevice} → NvmeFileType → ℕ → FileSystem d → FileSystem d
count_truncate wal new_size s = record s { nvmefs_current_wal_bytes = new_size }
count_truncate database new_size s = record s { nvmefs_current_db_bytes = new_size }
count_truncate temporary new_size s = s
count_truncate global_metadata new_size s = s
count_truncate unknown new_size s = s

unfoldable pub reset : NvmeFileHandle → NvmeFileHandle
reset fh = set_file_pointer 0 fh

unfoldable pub seek_position : NvmeFileHandle → ℕ
seek_position fh = fh.cursor_offset

module _ {d : BlockDevice} (e : Setup) where
  unfoldable pub get_file_size : NvmeFileHandle → Cmd (FileSystem d) ℕ
  get_file_size fh = with_strategy e fh (λ strategy. do
    nr_lbas ← strategy_file_size_lba e strategy fh.path
    pure (mul64 nr_lbas e.geometry.lba_size))

  unfoldable pub file_sync : NvmeFileHandle → Cmd (FileSystem d) (Unit {0})
  file_sync fh = write_metadata e

  unfoldable pub truncate : NvmeFileHandle → (new_size : ℕ) → Cmd (FileSystem d) (Unit {0})
  truncate fh new_size = with_strategy e fh (λ strategy. do
    strategy_truncate e strategy fh.path new_size
    modify (count_truncate (get_file_type e.util fh.path) new_size))

  unfoldable pub directory_exists : Str → Cmd (FileSystem d) Bool
  directory_exists directory = try_load_metadata e

  -- ClearAll of the manager of temporary files.
  unfoldable pub remove_directory : Str → Cmd (FileSystem d) (Unit {0})
  remove_directory directory = elim (get_file_type e.util directory) [
    | temporary ↦ get_nvme_device e >> with_temp temp_clear_all
    | database ↦ throw unknown_directory
    | wal ↦ throw unknown_directory
    | global_metadata ↦ throw unknown_directory
    | unknown ↦ throw unknown_directory
  ]

  unfoldable pub create_directory : Str → Cmd (FileSystem d) (Unit {0})
  create_directory directory = do loaded ← try_load_metadata e; throw_if (not loaded) no_metadata

  unfoldable pub create_directories_recursive : Str → Cmd (FileSystem d) (Unit {0})
  create_directories_recursive path = do
    loaded ← try_load_metadata e
    throw_if (not loaded) no_metadata

  -- The assertion on the location is one of debug builds.
  unfoldable pub seek : NvmeFileHandle → (location : ℕ) → Cmd (FileSystem d) NvmeFileHandle
  seek fh location = do
    throw_if (not (location % e.geometry.lba_size == 0)) assertion
    get_nvme_device e
    strategy ← strategy_for e fh.path (extract_database_name e.util fh.path)
    bound ← strategy_seek_bound e strategy fh.path
    throw_if (leb bound location) seek_out_of_bounds
    pure (set_file_pointer location fh)

  -- ListFiles: what the callback is called with, and the result.
  unfoldable pub list_directory : Str → Cmd (FileSystem d) (List (Str × Bool) × Bool)
  list_directory directory =
      if e.equals directory path_prefix
      then (do
        s ← get
        let entries : List (Str × Bool) = elim s.metadata [
          | none ↦ []
          | some g ↦ region_entries g.databases
        ]
        pure (entries ++ ((codes "/tmp", true) ∷ []), true))
      else if e.equals directory tmp_dir_path
      then (do
        get_nvme_device e
        names ← with_temp (λ m. ok (list_files e.get_file_name m) m)
        pure (map (λ name. (name, false)) names, true))
      else pure ([], false)

  -- What the temporary area has left.
  unfoldable pub temp_space : Cmd (FileSystem d) ℕ
  temp_space = do
    get_nvme_device e
    with_metadata (λ g. with_temp (λ m. ok (temp_available_space g.tmp_start e.geometry m) m))

  unfoldable pub get_available_disk_space : Str → Cmd (FileSystem d) (Option ℕ)
  get_available_disk_space path =
      if e.equals path path_prefix
      then (do
        s ← get
        elim s.metadata [
          | none ↦ pure (some 0)
          | some g ↦ (do
            temp ← temp_space
            pure (some (add64 (region_space e.geometry s.active_dbs g.databases 0) temp)))
        ])
      else if e.equals path tmp_dir_path
      then temp_space >>= (λ temp. pure (some temp))
      else pure none

  -- The destructor, up to the members that it resets.
  unfoldable pub close : Cmd (FileSystem d) (Unit {0})
  close s = elim s.metadata [ none ↦ ok tt s | some g ↦ write_metadata e s ]
