-- ===== src/Engine/Select.antt =====
-- NvmeDevice: what its constructor chooses, the index of a thread, and the reads and writes that it
-- hands to its engine.
use nvmefs.Prelude.{
  ℕ, ◌%◌, Bool, not, ◌&&◌, ◌||◌, List, [], ◌∷◌, Option, some, none, if◌then◌else◌, ltb, ◌==◌, add64,
  Str, codes, str_lt, insert_sorted, string_eq, Error, assertion, cannot_open_device,
  fdp_unsupported, Cmd, throw_if, ◌>>◌, ◌⊎◌, inl, inr,
}
use nvmefs.Device.{DeviceGeometry, CmdContext}
use nvmefs.Device.Placement.{Opts, prepare_opts, initialize_placement_handles}
use nvmefs.Engine.Async.{async_read, async_write}
use nvmefs.Engine.Prefetch.{prefetch_read, prefetch_write}
use nvmefs.Engine.Sync.{sync_read, sync_write}
use nvmefs.Engine.Xnvme.{Xnvme, NvmeDevice, Engine}
use nvmefs.Metadata.Defs.{NvmeConfig}
use nvmefs.PathHandler.Defs.{StringUtil}

pub data NvmeIoEngine : Type 0 where
  sync_engine async_prefetch_engine async_engine : NvmeIoEngine

unfoldable pub select_engine : StringUtil → (meta : Str) → NvmeIoEngine
select_engine u meta =
    if u.contains meta (codes "use_sync_writer")
    then sync_engine
    else if u.contains meta (codes "use_async_prefetch")
    then async_prefetch_engine
    else async_engine

-- The handles of the configuration, in the order of a std::map.
unfoldable pub ordered_mapping : List (Str × ℕ) → List (Str × ℕ) → List (Str × ℕ)
ordered_mapping [] m = m
ordered_mapping ((k, v) ∷ kvs) m = ordered_mapping kvs (insert_sorted str_lt k v m)

-- What the controller says: the geometry of the namespace, the limit of a transfer, and whether it
-- places data.
pub record Controller : Type 0 where
  pub geometry : DeviceGeometry
  pub mdts_nbytes : ℕ
  pub flexible_data_placement : Bool

-- The constructor. `dev_open` opens a device with options that are set over the default ones.
unfoldable pub open_device :
    StringUtil
    → (dev_open : Str → Opts → Option Controller) → Opts
    → NvmeConfig
    → Error ⊎ (NvmeDevice × NvmeIoEngine)
open_device u dev_open default config =
    elim (dev_open config.device_path (prepare_opts u config.backend default)) [
      | none ↦ inl cannot_open_device
      | some controller ↦
          let ruhs = if config.use_fdp then ordered_mapping config.fdp_mapping [] else [] in
          if config.use_fdp && not controller.flexible_data_placement
          then inl fdp_unsupported
          else inr (
            record {
              geometry = controller.geometry;
              use_fdp = config.use_fdp;
              allocated_ruhs = ruhs;
              ruhs_to_phids = if config.use_fdp then initialize_placement_handles ruhs else [];
              cached = u.contains config.meta (codes "use_cached_allocator");
              mdts_nbytes = controller.mdts_nbytes;
            },
            select_engine u config.meta,
          )
    ]

-- GetThreadIndex: a thread takes the next number at its first call, and keeps it.
unfoldable pub get_thread_index :
    (max_threads : ℕ) → (index : Option ℕ) → (thread_id_counter : ℕ) → ℕ × (Option ℕ × ℕ)
get_thread_index max_threads (some i) counter = (i, (some i, counter))
get_thread_index max_threads none counter =
    (counter % max_threads, (some (counter % max_threads), add64 counter 1))

-- The assertions of Read and Write, in debug builds.
unfoldable pub check_command {ℓ} : {S : Type ℓ} → CmdContext → Cmd S (Unit {0})
check_command ctx = do
  throw_if (not (ltb 0 ctx.nr_lbas)) assertion
  throw_if (not (((ctx.offset == 0) && ltb 1 ctx.nr_lbas) || (ctx.nr_lbas == 1))) assertion

module _ (x : Xnvme) (dev : NvmeDevice) (u : StringUtil) (engine : NvmeIoEngine) (thread : ℕ) where
  unfoldable pub nvme_read : CmdContext → Cmd (Engine x) (List ℕ)
  nvme_read ctx = check_command ctx >> elim engine [
    | sync_engine ↦ sync_read x dev u ctx
    | async_prefetch_engine ↦ prefetch_read x dev u thread ctx
    | async_engine ↦ async_read x dev u thread ctx
  ]

  unfoldable pub nvme_write : CmdContext → List ℕ → Cmd (Engine x) (Unit {0})
  nvme_write ctx src = check_command ctx >> elim engine [
    | sync_engine ↦ sync_write x dev u ctx src
    | async_prefetch_engine ↦ prefetch_write x dev u thread ctx src
    | async_engine ↦ async_write x dev u thread ctx src
  ]
