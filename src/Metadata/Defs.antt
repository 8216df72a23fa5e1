-- ===== src/Metadata/Defs.antt =====
-- DatabaseRegion, GlobalMetadata, NvmeConfig, and the pure parts of AllocateNewDatabaseRegion,
-- InitializeMetadata and GetRegionForPath.
use nvmefs.Prelude.{
  ℕ, zero, suc, ◌+◌, ◌/◌, Bool, true, false, ◌&&◌, List, [], ◌∷◌, Option, none, some, ltb, leb,
  ◌==◌, if◌then◌else◌, set, take, replicate, add64, sub64, Str, str_eq, lookup, string_eq,
  max_databases, insufficient_space, Run, Cmd, ◌>>=◌, ◌>>◌, pure, throw_if, get, put,
}
use nvmefs.Device.{DeviceGeometry}

pub record DatabaseRegion : Type 0 where
  pub db_path_size : ℕ
  pub db_path : Str
  pub db_start : ℕ
  pub wal_start : ℕ
  pub wal_end : ℕ
  pub db_location : ℕ
  pub wal_location : ℕ
  pub is_active : Bool

pub record GlobalMetadata : Type 0 where
  pub tmp_start : ℕ
  pub active_databases : ℕ
  pub databases : List DatabaseRegion

pub record NvmeConfig : Type 0 where
  pub device_path : Str
  pub backend : Str
  pub meta : Str
  pub max_temp_size : ℕ
  pub max_wal_size : ℕ
  pub max_threads : ℕ
  pub use_fdp : Bool
  pub fdp_mapping : List (Str × ℕ)
  pub db_configs : List (Str × ℕ)
  pub default_db_size : ℕ

abbrev pub max_nvme_databases : ℕ
max_nvme_databases = 16

-- A region as memset leaves it.
abbrev pub zero_region : DatabaseRegion
zero_region = record {
  db_path_size = 0;
  db_path = [];
  db_start = 0;
  wal_start = 0;
  wal_end = 0;
  db_location = 0;
  wal_location = 0;
  is_active = false;
}

-- What a char array of 101 zeros holds, read as a string, after strncpy of 100 characters: the
-- characters before the first NUL, a hundred at most.
unfoldable pub c_str : Str → Str
c_str [] = []
c_str (c ∷ s) = if c == 0 then [] else c ∷ c_str s

unfoldable pub strncpy_path : Str → Str
strncpy_path name = take 100 (c_str name)

-- The region that both AllocateNewDatabaseRegion and RegisterDB write, over what the slot held.
unfoldable pub place : DatabaseRegion → Str → ℕ → ℕ → ℕ → DatabaseRegion
place slot name start lbas wal_lbas = record slot {
  is_active = true;
  db_path = strncpy_path name;
  db_start = start;
  wal_start = add64 start lbas;
  wal_end = add64 (add64 start lbas) wal_lbas;
  db_location = start;
  wal_location = add64 start lbas;
}

-- The highest end of an active region, or the start value.
unfoldable pub highest_lba : ℕ → List DatabaseRegion → ℕ
highest_lba high [] = high
highest_lba high (r ∷ rs) =
    highest_lba (if r.is_active && ltb high r.wal_end then r.wal_end else high) rs

-- The bytes that the configuration reserves for a database.
unfoldable pub requested_bytes : NvmeConfig → Str → ℕ
requested_bytes config name = elim (lookup name config.db_configs) [
  | none ↦ config.default_db_size
  | some bytes ↦ bytes
]

-- The first inactive slot, rewritten; `none` when every slot is active.
unfoldable pub claim_slot :
    (DatabaseRegion → DatabaseRegion)
    → List DatabaseRegion
    → Option (List DatabaseRegion × DatabaseRegion)
claim_slot f [] = none
claim_slot f (r ∷ rs) =
    if r.is_active
    then elim (claim_slot f rs) [ none ↦ none | some (rs', new) ↦ some (r ∷ rs', new) ]
    else some (f r ∷ rs, f r)

-- AllocateNewDatabaseRegion on the metadata: the claimed region, or `none` if no slot is inactive.
unfoldable pub allocate_region :
    NvmeConfig → DeviceGeometry → Str → Cmd GlobalMetadata (Option DatabaseRegion)
allocate_region config geo name = do
  metadata ← get
  throw_if (leb max_nvme_databases metadata.active_databases) max_databases
  let lbas = requested_bytes config name / geo.lba_size
  let wal_lbas = config.max_wal_size / geo.lba_size
  let high = highest_lba 1 metadata.databases
  throw_if (leb metadata.tmp_start (add64 (add64 high lbas) wal_lbas)) insufficient_space
  elim (claim_slot (λ slot. place slot name high lbas wal_lbas) metadata.databases) [
    | none ↦ pure none
    | some (databases, region) ↦
        put (record metadata {
          active_databases = metadata.active_databases + 1;
          databases = databases;
        })
        >> pure (some region)
  ]

-- The variables that RegisterDB of InitializeMetadata captures.
pub record Registration : Type 0 where
  pub databases : List DatabaseRegion
  pub current_lba : ℕ
  pub db_idx : ℕ

unfoldable pub get_region : List DatabaseRegion → ℕ → DatabaseRegion
get_region [] i = zero_region
get_region (r ∷ rs) zero = r
get_region (r ∷ rs) (suc i) = get_region rs i

unfoldable pub register_db : ℕ → ℕ → Str → ℕ → Cmd Registration (Unit {0})
register_db tmp_start wal_lbas name lbas = do
  r ← get
  throw_if (leb max_nvme_databases r.db_idx) max_databases
  throw_if (leb tmp_start (add64 (add64 r.current_lba lbas) wal_lbas)) insufficient_space
  let region = place (get_region r.databases r.db_idx) name r.current_lba lbas wal_lbas
  put (record {
    databases = set r.databases r.db_idx region;
    current_lba = region.wal_end;
    db_idx = r.db_idx + 1;
  })

-- The loop over the configured databases.
unfoldable pub register_configs :
    ℕ → ℕ → DeviceGeometry → List (Str × ℕ) → Cmd Registration (Unit {0})
register_configs tmp_start wal_lbas geo [] = pure tt
register_configs tmp_start wal_lbas geo ((name, bytes) ∷ kvs) =
    register_db tmp_start wal_lbas name (bytes / geo.lba_size)
    >> register_configs tmp_start wal_lbas geo kvs

-- Whether one of the first `db_idx` entries has the path.
unfoldable pub first_allocated : Str → ℕ → List DatabaseRegion → Bool
first_allocated name zero rs = false
first_allocated name (suc n) [] = false
first_allocated name (suc n) (r ∷ rs) =
    if str_eq r.db_path name then true else first_allocated name n rs

unfoldable pub register_all :
    NvmeConfig → DeviceGeometry → ℕ → ℕ → Str → List (Str × ℕ) → Cmd Registration (Unit {0})
register_all config geo tmp_start wal_lbas first [] = do
  r ← get
  register_db tmp_start wal_lbas first (sub64 (sub64 tmp_start r.current_lba) wal_lbas)
register_all config geo tmp_start wal_lbas first (kv ∷ kvs) = do
  register_configs tmp_start wal_lbas geo (kv ∷ kvs)
  r ← get
  if first_allocated first r.db_idx r.databases
      then pure tt
      else register_db tmp_start wal_lbas first (config.default_db_size / geo.lba_size)

-- The start of the temporary area in fresh metadata.
unfoldable pub temp_start : NvmeConfig → DeviceGeometry → ℕ
temp_start config geo = sub64 geo.lba_count (config.max_temp_size / geo.lba_size)

abbrev pub no_regions : Registration
no_regions = record {
  databases = replicate max_nvme_databases zero_region;
  current_lba = 1;
  db_idx = 0;
}

-- InitializeMetadata up to the point where it sets the member `metadata`.
unfoldable pub fresh_metadata : NvmeConfig → DeviceGeometry → Str → Run Registration GlobalMetadata
fresh_metadata config geo first =
    let tmp = temp_start config geo in
    let wal_lbas = config.max_wal_size / geo.lba_size in
    (do
      register_all config geo tmp wal_lbas first config.db_configs
      r ← get
      pure (record { tmp_start = tmp; active_databases = r.db_idx; databases = r.databases }))
      no_regions

-- GetRegionForPath: the first active entry with the path.
unfoldable pub find_region : Str → List DatabaseRegion → Option DatabaseRegion
find_region name [] = none
find_region name (r ∷ rs) =
    if r.is_active && str_eq r.db_path name then some r else find_region name rs
