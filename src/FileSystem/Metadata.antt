-- ===== src/FileSystem/Metadata.antt =====
-- The record of the global metadata on the device: TryLoadMetadata, InitializeMetadata, ReadMetadata,
-- WriteMetadata and AllocateNewDatabaseRegion.
use nvmefs.Prelude.{
  ℕ, ◌+◌, Bool, true, false, List, [], ◌∷◌, ◌++◌, Option, none, some, if◌then◌else◌, length, take,
  drop, sub64, Str, codes, str_eq, lookup, insert, string_eq, ok, err, Cmd, pure, modify, ◌>>=◌,
  ◌>>◌,
}
use nvmefs.Device.{DeviceGeometry, CmdContext}
use nvmefs.Engine.Interface.{BlockDevice}
use nvmefs.FileSystem.State.{
  Setup, Layout, FileSystem, NvmeFileHandle, prepare_command, device_read, device_write,
  with_metadata,
}
use nvmefs.Metadata.Defs.{DatabaseRegion, GlobalMetadata, fresh_metadata, allocate_region}
use nvmefs.PathHandler.Defs.{global_metadata_path}
use nvmefs.Strategy.Temporary.{RuntimeState}
use nvmefs.TempFiles.Defs.{TempManager, new_temp_manager}

-- The six letters and the NUL behind them.
abbrev pub magic_bytes : List ℕ
magic_bytes = codes "NVMEFS" ++ (0 ∷ [])

abbrev pub global_metadata_location : ℕ
global_metadata_location = 0

-- The handle that OpenFile gives for the path of the metadata.
abbrev pub metadata_handle : NvmeFileHandle
metadata_handle = record {
  path = global_metadata_path;
  file_type = none;
  strategy = none;
  op_state = none;
  metrics_cache = none;
  cursor_offset = 0;
}

-- The command of ReadMetadata and of WriteMetadata.
unfoldable pub metadata_command : Setup → CmdContext
metadata_command e =
    prepare_command e.geometry metadata_handle (length magic_bytes + e.layout.size)
      global_metadata_location 0

-- WriteMetadata takes the locations of the open databases over into the active regions.
unfoldable pub sync_region : List (Str × RuntimeState) → DatabaseRegion → DatabaseRegion
sync_region dbs r =
    if r.is_active
    then elim (lookup r.db_path dbs) [
      | none ↦ r
      | some st ↦ record r { db_location = st.db_location; wal_location = st.wal_location }
    ]
    else r

unfoldable pub sync_locations :
    List (Str × RuntimeState) → List DatabaseRegion → List DatabaseRegion
sync_locations dbs [] = []
sync_locations dbs (r ∷ rs) = sync_region dbs r ∷ sync_locations dbs rs

-- The runtime states that TryLoadMetadata makes, from the locations that were stored.
unfoldable pub load_states :
    List DatabaseRegion → List (Str × RuntimeState) → List (Str × RuntimeState)
load_states [] dbs = dbs
load_states (r ∷ rs) dbs = load_states rs (
    if r.is_active
    then insert r.db_path (record { db_location = r.db_location; wal_location = r.wal_location })
        dbs
    else dbs)

-- Those that InitializeMetadata makes for the first regions.
unfoldable pub first_states :
    List DatabaseRegion → List (Str × RuntimeState) → List (Str × RuntimeState)
first_states [] dbs = dbs
first_states (r ∷ rs) dbs =
    first_states rs
      (insert r.db_path (record { db_location = r.db_start; wal_location = r.wal_start }) dbs)

-- A new manager of temporary files. The global counters outlive the old one; they start at 0.
unfoldable pub make_temp_manager :
    DeviceGeometry → (tmp_start : ℕ) → Option TempManager → TempManager
make_temp_manager geo tmp_start none =
    new_temp_manager 0 0 0 0 tmp_start (sub64 geo.lba_count 1) geo.lba_size
make_temp_manager geo tmp_start (some m) =
    new_temp_manager m.pool.block_manager.active_temp_bytes m.pool.block_manager.peak_temp_bytes
      m.active_temp_files m.peak_temp_files tmp_start (sub64 geo.lba_count 1) geo.lba_size

-- What ReadMetadata makes of the bytes that it read.
unfoldable pub parse_metadata : Layout → List ℕ → Option GlobalMetadata
parse_metadata l bs =
    if str_eq (take (length magic_bytes) bs) magic_bytes
    then some (l.decode (drop (length magic_bytes) bs))
    else none

module _ {d : BlockDevice} (e : Setup) where
  unfoldable pub reset_temp : (tmp_start : ℕ) → FileSystem d → FileSystem d
  reset_temp tmp_start s = record s {
    temp_meta_manager = some (make_temp_manager e.geometry tmp_start s.temp_meta_manager);
  }

  unfoldable pub read_metadata : Cmd (FileSystem d) (Option GlobalMetadata)
  read_metadata = do
    bs ← device_read (metadata_command e)
    elim (parse_metadata e.layout bs) [
      | none ↦ pure none
      | some g ↦ modify (reset_temp g.tmp_start) >> pure (some g)
    ]

  unfoldable pub write_metadata : Cmd (FileSystem d) (Unit {0})
  write_metadata = with_metadata (λ g s.
      let g' = record g { databases = sync_locations s.active_dbs g.databases } in
      device_write (metadata_command e) (magic_bytes ++ e.layout.encode g')
        (record s { metadata = some g' }))

  unfoldable pub install_metadata : GlobalMetadata → FileSystem d → FileSystem d
  install_metadata g s =
      reset_temp g.tmp_start
        (record s { metadata = some g; active_dbs = load_states g.databases s.active_dbs })

  unfoldable pub try_load_metadata : Cmd (FileSystem d) Bool
  try_load_metadata s = elim s.metadata [
    | some g ↦ ok true s
    | none ↦ elim (read_metadata s) [
      | err er t ↦ err er t
      | ok none t ↦ ok false t
      | ok (some g) t ↦ ok true (install_metadata g t)
    ]
  ]

  unfoldable pub initialize_metadata : Str → Cmd (FileSystem d) (Unit {0})
  initialize_metadata first_db_name s = elim (fresh_metadata e.config e.geometry first_db_name) [
    | err er r ↦ err er s
    | ok g r ↦ write_metadata (
        reset_temp g.tmp_start (record s {
          metadata = some g;
          active_dbs = first_states (take g.active_databases g.databases) s.active_dbs;
        }))
  ]

  -- AllocateNewDatabaseRegion: a region that was claimed gets a runtime state and is written.
  unfoldable pub claim_region : Str → Option DatabaseRegion → Cmd (FileSystem d) (Unit {0})
  claim_region db_name none = pure tt
  claim_region db_name (some r) = do
    modify (λ s. record s {
      active_dbs =
          insert db_name (record { db_location = r.db_start; wal_location = r.wal_start })
            s.active_dbs;
    })
    write_metadata

  unfoldable pub allocate_new_database_region : Str → Cmd (FileSystem d) (Unit {0})
  allocate_new_database_region db_name = with_metadata (λ g s.
      elim (allocate_region e.config e.geometry db_name g) [
        | err er g' ↦ err er (record s { metadata = some g' })
        | ok region g' ↦ claim_region db_name region (record s { metadata = some g' })
      ])
