-- ===== src/FileSystem/Transfer.antt =====
-- Reads and writes of NvmeFileSystem: at a position, and at the cursor of the handle. The counters are
-- those of one thread: a loop of compare_exchange_weak runs here with no other.
use nvmefs.Prelude.{
  ℕ, ◌%◌, Bool, true, not, List, Option, none, some, if◌then◌else◌, ltb, length, replicate, add64,
  Str, lookup, insert, string_eq, read_out_of_range, write_out_of_range, null_dereference, Cmd,
  pure, throw, throw_if, modify, ◌>>=◌, ◌>>◌,
}
use nvmefs.Engine.Interface.{BlockDevice}
use nvmefs.FileSystem.State.{
  Setup, FileSystem, NvmeFileHandle, DatabaseMetrics, NvmeMetricsState,
  calculate_required_lba_count, prepare_command, set_file_pointer, device_read, device_write,
}
use nvmefs.FileSystem.Strategies.{
  strategy_get_lba, strategy_is_lba_in_range, strategy_update_metadata,
}
use nvmefs.PathHandler.Defs.{database, wal, temporary, global_metadata, unknown}
use nvmefs.Strategy.Temporary.{FileStrategy}

-- The loop that raises a counter to the end of a write.
unfoldable pub raise_to : ℕ → ℕ → ℕ
raise_to current write_end = if ltb current write_end then write_end else current

unfoldable pub count_wal : (nr_bytes location : ℕ) → DatabaseMetrics → DatabaseMetrics
count_wal nr_bytes location m =
    let write_end = add64 location nr_bytes in
    record m {
      total_wal_bytes = add64 m.total_wal_bytes nr_bytes;
      current_wal_bytes = raise_to m.current_wal_bytes write_end;
      peak_wal_bytes = raise_to m.peak_wal_bytes write_end;
    }

unfoldable pub count_db : (nr_bytes location : ℕ) → DatabaseMetrics → DatabaseMetrics
count_db nr_bytes location m =
    let write_end = add64 location nr_bytes in
    record m {
      total_db_bytes = add64 m.total_db_bytes nr_bytes;
      current_db_bytes = raise_to m.current_db_bytes write_end;
      peak_db_bytes = raise_to m.peak_db_bytes write_end;
    }

-- The counters of the database that a handle refers to.
unfoldable pub count_under :
    Option Str → (DatabaseMetrics → DatabaseMetrics) → NvmeMetricsState → NvmeMetricsState
count_under none f m = m
count_under (some name) f m = elim (lookup name m.per_db) [
  | none ↦ m
  | some old ↦ record m { per_db = insert name (f old) m.per_db }
]

unfoldable pub count_write :
    NvmeFileHandle → (nr_bytes location : ℕ) → NvmeMetricsState → NvmeMetricsState
count_write fh nr_bytes location m = elim fh.file_type [
  | some temporary ↦ record m { total_spill_bytes = add64 m.total_spill_bytes nr_bytes }
  | some wal ↦ count_under fh.metrics_cache (count_wal nr_bytes location) m
  | some database ↦ count_under fh.metrics_cache (count_db nr_bytes location) m
  | some global_metadata ↦ m
  | some unknown ↦ m
  | none ↦ m
]

module _ {d : BlockDevice} (e : Setup) where
  -- The strategy of a handle, through a pointer that is null for the handle of the metadata.
  unfoldable pub with_strategy {ℓ} :
      {A : Type ℓ} → NvmeFileHandle → (FileStrategy → Cmd (FileSystem d) A) → Cmd (FileSystem d) A
  with_strategy fh k = elim fh.strategy [
    | none ↦ throw null_dereference
    | some strategy ↦ k strategy
  ]

  unfoldable pub read_at : NvmeFileHandle → (nr_bytes location : ℕ) → Cmd (FileSystem d) (List ℕ)
  read_at fh nr_bytes location = with_strategy fh (λ strategy. do
    let in_block_offset = location % e.geometry.lba_size
    let nr_lbas = calculate_required_lba_count e.geometry nr_bytes in_block_offset
    start_lba ← strategy_get_lba e strategy fh.path nr_bytes location nr_lbas
    let ctx = prepare_command e.geometry fh nr_bytes start_lba in_block_offset
    fits ← strategy_is_lba_in_range e strategy start_lba ctx.nr_lbas
    throw_if (not fits) read_out_of_range
    device_read ctx)

  unfoldable pub write_at : NvmeFileHandle → List ℕ → (location : ℕ) → Cmd (FileSystem d) (Unit {0})
  write_at fh src location = with_strategy fh (λ strategy. do
    let in_block_offset = location % e.geometry.lba_size
    let nr_lbas = calculate_required_lba_count e.geometry (length src) in_block_offset
    start_lba ← strategy_get_lba e strategy fh.path (length src) location nr_lbas
    let ctx = prepare_command e.geometry fh (length src) start_lba in_block_offset
    fits ← strategy_is_lba_in_range e strategy start_lba ctx.nr_lbas
    throw_if (not fits) write_out_of_range
    device_write ctx src
    strategy_update_metadata e strategy ctx
    modify (λ s. record s { metrics = count_write fh (length src) location s.metrics }))

  -- Read and Write at the cursor, which they move behind the bytes if they return.
  unfoldable pub read_next :
      (nr_bytes : ℕ) → NvmeFileHandle → Cmd (FileSystem d) (List ℕ × NvmeFileHandle)
  read_next nr_bytes fh = do
    bs ← read_at fh nr_bytes fh.cursor_offset
    pure (bs, set_file_pointer (add64 fh.cursor_offset nr_bytes) fh)

  unfoldable pub write_next : List ℕ → NvmeFileHandle → Cmd (FileSystem d) (ℕ × NvmeFileHandle)
  write_next src fh = do
    write_at fh src fh.cursor_offset
    pure (length src, set_file_pointer (add64 fh.cursor_offset (length src)) fh)

  -- Trim writes zeros.
  unfoldable pub trim : NvmeFileHandle → (offset_bytes length_bytes : ℕ) → Cmd (FileSystem d) Bool
  trim fh offset_bytes length_bytes = do
    write_at fh (replicate length_bytes 0) offset_bytes
    pure true
