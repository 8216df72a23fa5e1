-- ===== src/Metrics.antt =====
-- src/nvmefs_extension.cpp: the rows of the table functions print_nvmefs_metrics and print_config.
use nvmefs.Prelude.{ℕ, Bool, true, false, List, [], ◌∷◌, ◌++◌, Option, map, Str, codes}
use nvmefs.FileSystem.State.{DatabaseMetrics, NvmeMetricsState}

-- The counters of temporary files, which are global.
pub record TempCounters : Type 0 where
  pub active_temp_bytes : ℕ
  pub peak_temp_bytes : ℕ
  pub active_temp_files : ℕ
  pub peak_temp_files : ℕ

unfoldable pub temp_rows : NvmeMetricsState → TempCounters → List (Str × ℕ)
temp_rows m t =
    (codes "shared_temp.total_spill_bytes", m.total_spill_bytes)
    ∷ (codes "shared_temp.active_temp_bytes", t.active_temp_bytes)
    ∷ (codes "shared_temp.peak_temp_bytes", t.peak_temp_bytes)
    ∷ (codes "shared_temp.active_temp_files", t.active_temp_files)
    ∷ (codes "shared_temp.peak_temp_files", t.peak_temp_files)
    ∷ []

unfoldable pub database_rows : Str → DatabaseMetrics → List (Str × ℕ)
database_rows db_name m =
    (db_name ++ codes ".total_wal_bytes", m.total_wal_bytes)
    ∷ (db_name ++ codes ".current_wal_bytes", m.current_wal_bytes)
    ∷ (db_name ++ codes ".peak_wal_bytes", m.peak_wal_bytes)
    ∷ (db_name ++ codes ".total_db_bytes", m.total_db_bytes)
    ∷ (db_name ++ codes ".current_db_bytes", m.current_db_bytes)
    ∷ (db_name ++ codes ".peak_db_bytes", m.peak_db_bytes)
    ∷ []

unfoldable pub all_database_rows : List (Str × DatabaseMetrics) → List (Str × ℕ)
all_database_rows [] = []
all_database_rows ((db_name, m) ∷ dbs) = database_rows db_name m ++ all_database_rows dbs

-- MetricsPrint: the rows of a call, and that a further call emits none.
unfoldable pub metrics_print :
    NvmeMetricsState → TempCounters → (finished : Bool) → List (Str × ℕ) × Bool
metrics_print m t true = ([], true)
metrics_print m t false = (temp_rows m t ++ all_database_rows m.per_db, true)

abbrev pub settings : List Str
settings =
    codes "nvme_device_path"
    ∷ codes "temp_directory"
    ∷ codes "backend"
    ∷ codes "worker_threads"
    ∷ codes "meta"
    ∷ []

-- ConfigPrint: each setting with its current value, if it has one.
unfoldable pub config_print :
    (Str → Option Str) → (finished : Bool) → List (Str × Option Str) × Bool
config_print current true = ([], true)
config_print current false = (map (λ name. (name, current name)) settings, true)
