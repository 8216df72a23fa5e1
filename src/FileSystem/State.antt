-- ===== src/FileSystem/State.antt =====
-- The members of NvmeFileSystem and of its handles, and the access to them.
use nvmefs.Prelude.{
  ℕ, ◌/◌, Bool, List, [], Option, none, some, add64, sub64, Str, lookup, insert, string_eq,
  null_dereference, ok, err, Cmd,
}
use nvmefs.Device.{DeviceGeometry, CmdContext}
use nvmefs.Engine.Interface.{BlockDevice}
use nvmefs.Metadata.Defs.{GlobalMetadata, NvmeConfig}
use nvmefs.PathHandler.Defs.{StringUtil, NvmeFileType}
use nvmefs.Strategy.Temporary.{FileStrategy, RuntimeState}
use nvmefs.TempFiles.Defs.{TempManager}

-- How the compiler lays out a GlobalMetadata of `size` bytes in memory, a parameter.
pub record Layout : Type 0 where
  pub size : ℕ
  pub encode : GlobalMetadata → List ℕ
  pub decode : List ℕ → GlobalMetadata

-- What a file system is made with, and the functions of DuckDB and of C++ that it calls. `is_nvme` tells
-- whether the device is an NvmeDevice; `equals` is StringUtil::Equals.
pub record Setup : Type 0 where
  pub geometry : DeviceGeometry
  pub config : NvmeConfig
  pub is_nvme : Bool
  pub util : StringUtil
  pub equals : Str → Str → Bool
  pub stoi : Str → Option ℕ
  pub get_file_name : Str → Str
  pub layout : Layout

pub record DatabaseMetrics : Type 0 where
  pub total_wal_bytes : ℕ
  pub current_wal_bytes : ℕ
  pub peak_wal_bytes : ℕ
  pub total_db_bytes : ℕ
  pub current_db_bytes : ℕ
  pub peak_db_bytes : ℕ

abbrev pub no_metrics : DatabaseMetrics
no_metrics = record {
  total_wal_bytes = 0;
  current_wal_bytes = 0;
  peak_wal_bytes = 0;
  total_db_bytes = 0;
  current_db_bytes = 0;
  peak_db_bytes = 0;
}

pub record NvmeMetricsState : Type 0 where
  pub total_spill_bytes : ℕ
  pub per_db : List (Str × DatabaseMetrics)

-- The members that change, with the two global counters that Truncate sets.
pub record FileSystem (d : BlockDevice) : Type 0 where
  pub device : d.State
  pub metadata : Option GlobalMetadata
  pub temp_meta_manager : Option TempManager
  pub active_dbs : List (Str × RuntimeState)
  pub metrics : NvmeMetricsState
  pub nvmefs_current_wal_bytes : ℕ
  pub nvmefs_current_db_bytes : ℕ

-- The constructor: no metadata is loaded.
unfoldable pub new_file_system :
    (d : BlockDevice) → d.State → NvmeMetricsState → (wal_bytes db_bytes : ℕ) → FileSystem d
new_file_system d s metrics wal_bytes db_bytes = record {
  device = s;
  metadata = none;
  temp_meta_manager = none;
  active_dbs = [];
  metrics = metrics;
  nvmefs_current_wal_bytes = wal_bytes;
  nvmefs_current_db_bytes = db_bytes;
}

-- A handle. The type of the handle for the metadata is never set; the metrics are those under a name.
pub record NvmeFileHandle : Type 0 where
  pub path : Str
  pub file_type : Option NvmeFileType
  pub strategy : Option FileStrategy
  pub op_state : Option Str
  pub metrics_cache : Option Str
  pub cursor_offset : ℕ

-- CalculateRequiredLBACount.
unfoldable pub calculate_required_lba_count : DeviceGeometry → (nr_bytes offset : ℕ) → ℕ
calculate_required_lba_count geo nr_bytes offset =
    sub64 (add64 (add64 offset nr_bytes) geo.lba_size) 1 / geo.lba_size

unfoldable pub prepare_command :
    DeviceGeometry → NvmeFileHandle → (nr_bytes start_lba offset : ℕ) → CmdContext
prepare_command geo fh nr_bytes start_lba offset = record {
  nr_bytes = nr_bytes;
  nr_lbas = calculate_required_lba_count geo nr_bytes offset;
  start_lba = start_lba;
  offset = offset;
  filepath = fh.path;
}

unfoldable pub set_file_pointer : ℕ → NvmeFileHandle → NvmeFileHandle
set_file_pointer location fh = record fh { cursor_offset = location }

module _ {d : BlockDevice} where
  -- The calls of the device.
  unfoldable pub device_read : CmdContext → Cmd (FileSystem d) (List ℕ)
  device_read ctx s = elim (d.read ctx s.device) [
    | ok bs t ↦ ok bs (record s { device = t })
    | err e t ↦ err e (record s { device = t })
  ]

  unfoldable pub device_write : CmdContext → List ℕ → Cmd (FileSystem d) (Unit {0})
  device_write ctx src s = elim (d.write ctx src s.device) [
    | ok u t ↦ ok tt (record s { device = t })
    | err e t ↦ err e (record s { device = t })
  ]

  -- A call of the manager of temporary files.
  unfoldable pub with_temp {ℓ} : {A : Type ℓ} → Cmd TempManager A → Cmd (FileSystem d) A
  with_temp run s = elim s.temp_meta_manager [
    | none ↦ err null_dereference s
    | some m ↦ elim (run m) [
      | ok a m' ↦ ok a (record s { temp_meta_manager = some m' })
      | err e m' ↦ err e (record s { temp_meta_manager = some m' })
    ]
  ]

  -- A run on the runtime state of an open database.
  unfoldable pub with_state {ℓ} : {A : Type ℓ} → Str → Cmd RuntimeState A → Cmd (FileSystem d) A
  with_state name run s = elim (lookup name s.active_dbs) [
    | none ↦ err null_dereference s
    | some st ↦ elim (run st) [
      | ok a st' ↦ ok a (record s { active_dbs = insert name st' s.active_dbs })
      | err e st' ↦ err e (record s { active_dbs = insert name st' s.active_dbs })
    ]
  ]

  -- A use of the member `metadata`.
  unfoldable pub with_metadata {ℓ} :
      {A : Type ℓ} → (GlobalMetadata → Cmd (FileSystem d) A) → Cmd (FileSystem d) A
  with_metadata k s = elim s.metadata [ none ↦ err null_dereference s | some g ↦ k g s ]

  -- GetRuntimeState: a state is referred to by the name that it is filed under.
  unfoldable pub get_runtime_state : Str → FileSystem d → Option Str
  get_runtime_state name s = elim (lookup name s.active_dbs) [ none ↦ none | some st ↦ some name ]
