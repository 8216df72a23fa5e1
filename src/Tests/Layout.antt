-- ===== src/Tests/Layout.antt =====
-- A device of 1000 blocks of 4096 bytes, with room for 100 temporary blocks and logs of 10 blocks.
use nvmefs.Prelude.{
  ℕ, ◌≡◌, refl, true, false, List, [], ◌∷◌, Option, none, some, arith, Str, codes, ok, err,
  insufficient_space, lookup, str_eq, add64, sub64, replicate, inl, inr, All, zero, suc, final,
}
use nvmefs.Device.{DeviceGeometry, IsSane}
use nvmefs.Metadata.Defs.{
  zero_region, NvmeConfig, GlobalMetadata, DatabaseRegion, allocate_region, fresh_metadata,
  requested_bytes, register_all, register_configs, register_db, temp_start, place, strncpy_path,
  c_str, first_allocated, get_region, no_regions, highest_lba, claim_slot, find_region,
}
use nvmefs.Metadata.Packed.{IsVacant}
use nvmefs.Metadata.Allocate.{IsLaidOut, Outcome, allocate_region-Outcome}
use nvmefs.Metadata.Fresh.{Fresh, fresh_metadata-Fresh, fresh_metadata-empty}

abbrev pub geometry : DeviceGeometry
geometry = record { lba_size = 4096; lba_count = 1000 }

pub geometry-IsSane : IsSane geometry
geometry-IsSane = omega arith

abbrev pub config_of : List (Str × ℕ) → NvmeConfig
config_of dbs = record {
  device_path = codes "/dev/ng1n1";
  backend = codes "io_uring_cmd";
  meta = [];
  max_temp_size = 409600;
  max_wal_size = 40960;
  max_threads = 4;
  use_fdp = false;
  fdp_mapping = [];
  db_configs = dbs;
  default_db_size = 819200;
}

abbrev one_config : NvmeConfig
one_config = config_of ((codes "a", 409600) ∷ [])

first_run : Option ℕ
first_run = elim (fresh_metadata one_config geometry (codes "b")) [
  | ok g r ↦ some g.active_databases
  | err e r ↦ none
]

-- The configured database and the one that is opened.
two_databases : first_run ≡ some 2
unfolding first_run fresh_metadata register_all register_configs register_db temp_start place
    strncpy_path c_str first_allocated get_region str_eq add64 sub64
two_databases = refl

fresh_metadata-Fresh_example :
    Fresh one_config geometry (codes "b") (fresh_metadata one_config geometry (codes "b"))
fresh_metadata-Fresh_example =
    fresh_metadata-Fresh one_config geometry (codes "b") (codes "a", 409600) [] refl geometry-IsSane
      (omega arith)

fresh_metadata-empty_example :
    fresh_metadata (config_of []) geometry (codes "a") ≡ err insufficient_space no_regions
fresh_metadata-empty_example =
    fresh_metadata-empty (config_of []) geometry (codes "a") refl (omega arith)

abbrev table : List DatabaseRegion → GlobalMetadata
table regions = record { tmp_start = 900; active_databases = 1; databases = regions }

abbrev pub region_a : DatabaseRegion
region_a = record {
  db_path_size = 0;
  db_path = codes "a";
  db_start = 1;
  wal_start = 101;
  wal_end = 111;
  db_location = 1;
  wal_location = 101;
  is_active = true;
}

abbrev one_table : GlobalMetadata
one_table = table (region_a ∷ replicate 15 zero_region)

one_table-IsLaidOut : IsLaidOut one_table
one_table-IsLaidOut = record {
  slots = refl;
  counted = refl;
  packed = inl (refl, omega arith, omega arith, omega arith, inr (refl, omega arith, vacant 14));
  range = omega arith;
}
  where
    vacant : (n : ℕ) → All IsVacant (replicate n zero_region)
    vacant zero = tt
    vacant (suc n) = (refl, vacant n)

allocate_region-Outcome_example :
    Outcome one_config geometry
      (codes "b")
      one_table
      (allocate_region one_config geometry (codes "b") one_table)
unfolding requested_bytes lookup str_eq
allocate_region-Outcome_example =
    allocate_region-Outcome one_config geometry (codes "b") one_table geometry-IsSane
      (record { wal = omega arith; requested = omega arith }) one_table-IsLaidOut

second_region :
    find_region
      (codes "b")
      (final (allocate_region one_config geometry (codes "b") one_table)).databases
    ≡ some (place zero_region (codes "b") 111 200 10)
unfolding allocate_region find_region place strncpy_path c_str requested_bytes lookup str_eq
    highest_lba claim_slot add64
second_region = refl
