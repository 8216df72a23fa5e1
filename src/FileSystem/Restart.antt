-- ===== src/FileSystem/Restart.antt =====
-- WriteMetadata, and TryLoadMetadata after a restart: the regions and the ends of the files survive.
pub mod States
use native.Mathlib.Nat.{mul-le-mul_right, lt_of_mul-lt-mul_right}
use nvmefs.Prelude.{
  ℕ, ◌+◌, ◌*◌, ◌/◌, ◌%◌, ◌^◌, ◌<◌, ◌≤◌, ◌≡◌, refl, sym, ◌∙◌, ap, subst, inl, inr, Bool, true, false,
  List, [], ◌∷◌, ◌++◌, Option, none, some, length, take, drop, get_or, get_elem?, bytes_at, within,
  Str, codes, str_eq, str_eq_refl, lookup, string_eq, arith, Run, ok, err, Error, final, bytes_ext,
  length-bytes_at, get_or-bytes_at, length-append, take-append_left, drop-append_left,
  if◌then◌else◌, ◌-◌, and_then, Cmd, pure, modify, ◌>>◌, null_dereference,
}
use nvmefs.Device.{DeviceGeometry, IsSane, CmdContext, IsCommand}
use nvmefs.FileSystem.Blocks.{blocks_for, blocks_for-bounds, calculate_exact}
use nvmefs.Engine.Interface.{
  BlockDevice, IsFaithful, first_byte, Reads, read_fails, read_returns, Writes, write_fails,
  write_returns,
}
use nvmefs.FileSystem.Metadata.{
  magic_bytes, metadata_command, sync_locations, load_states, parse_metadata, read_metadata,
  write_metadata, install_metadata, try_load_metadata, reset_temp,
}
use nvmefs.FileSystem.State.{
  Setup, Layout, FileSystem, NvmeMetricsState, new_file_system, prepare_command,
  calculate_required_lba_count, device_read, device_write, with_metadata,
}
use nvmefs.FileSystem.Restart.States.{count_named, load_states-sync_locations}
use nvmefs.Metadata.Defs.{DatabaseRegion, GlobalMetadata}
use nvmefs.Strategy.Temporary.{RuntimeState}

-- The layout stores a record: it has the size, and is read back.
pub record IsStored (l : Layout) (g : GlobalMetadata) : Type 0 where
  pub size : length (l.encode g) ≡ l.size
  pub decoded : l.decode (l.encode g) ≡ g

parse_stored :
    (l : Layout) (g : GlobalMetadata)
    → IsStored l g
    → parse_metadata l (magic_bytes ++ l.encode g) ≡ some g
unfolding parse_metadata
parse_stored l g stored =
    let start = take-append_left magic_bytes (l.encode g) in
    let rest = drop-append_left magic_bytes (l.encode g) in
    let same = str_eq_refl magic_bytes in rw (start, rest, same) (ap some stored.decoded)

-- The record fits a command, and the device is not a single block.
pub record HasRoom (e : Setup) : Type 0 where
  pub sane : IsSane e.geometry
  pub blocks : 2 ≤ e.geometry.lba_count
  pub few_bytes : 7 + e.layout.size ≤ 65535 * e.geometry.lba_size
  pub words : 7 + e.layout.size < 2 ^ 62

module _ (e : Setup) (room : HasRoom e) where
  metadata_blocks :
      calculate_required_lba_count e.geometry (7 + e.layout.size) 0
      ≡ blocks_for e.geometry.lba_size (0 + (7 + e.layout.size))
  metadata_blocks =
      let two : 2 * e.geometry.lba_size ≤ e.geometry.lba_count * e.geometry.lba_size =
        mul-le-mul_right e.geometry.lba_size room.blocks in
      calculate_exact e.geometry (7 + e.layout.size) 0 (omega (arith, room.sane.block_size))
        (omega (arith, room.sane.capacity, room.words))

  metadata_command-IsCommand : IsCommand e.geometry (metadata_command e)
  unfolding metadata_command prepare_command
  metadata_command-IsCommand =
      let two : 2 * e.geometry.lba_size ≤ e.geometry.lba_count * e.geometry.lba_size =
        mul-le-mul_right e.geometry.lba_size room.blocks in
      let (p, up, down) =
        blocks_for-bounds e.geometry.lba_size (0 + (7 + e.layout.size))
          (omega (arith, room.sane.block_size)) (omega arith) in
      let few : blocks_for e.geometry.lba_size (0 + (7 + e.layout.size)) * e.geometry.lba_size
          < 65537 * e.geometry.lba_size =
        omega (arith, room.few_bytes, room.sane.block_size) in
      let lt = lt_of_mul-lt-mul_right e.geometry.lba_size few in
      record {
        some_blocks = rw metadata_blocks p;
        few_blocks = rw metadata_blocks (omega arith);
        inside = rw metadata_blocks up;
        words = rw metadata_blocks (omega (arith, room.sane.capacity, room.words));
        last = rw metadata_blocks (omega arith);
      }

-- The metadata with the locations of the open databases.
abbrev pub with_locations : List (Str × RuntimeState) → GlobalMetadata → GlobalMetadata
with_locations dbs g = record g { databases = sync_locations dbs g.databases }

-- The file system after a restart: the device failed when the record was read, or the table of
-- regions is the one that was written, and each database with a name of its own has its file
-- locations back.
pub data Restarted {d : BlockDevice} (g : GlobalMetadata) (dbs : List (Str × RuntimeState))
    : Run (FileSystem d) Bool → Type 0 where
  restart_failed : {er : Error} {s' : FileSystem d} → Restarted g dbs (err er s')
  restarted :
      {s' : FileSystem d}
      → s'.metadata ≡ some (with_locations dbs g)
      → ((i : ℕ) (r : DatabaseRegion) (st : RuntimeState)
          → get_elem? g.databases i ≡ some r
          → r.is_active ≡ true
          → count_named r.db_path g.databases ≡ 1
          → lookup r.db_path dbs ≡ some st
          → lookup r.db_path s'.active_dbs ≡ some st)
      → Restarted g dbs (ok true s')

module _ {d : BlockDevice} (e : Setup) (room : HasRoom e) (faithful : IsFaithful e.geometry d) where
  data Saves (src : List ℕ) (s : FileSystem d) : Run (FileSystem d) (Unit {0}) → Type 0 where
    save_failed : {er : Error} {s' : FileSystem d} → Saves src s (err er s')
    saved :
        {t : d.State}
        → bytes_at (d.byte t) 0 (length src) ≡ src
        → Saves src s (ok tt (record s { device = t }))

  after_save :
      (src : List ℕ) (s : FileSystem d) (run : Run d.State (Unit {0}))
      → length src ≡ 7 + e.layout.size
      → Writes d.byte e.geometry (metadata_command e) src s.device run
      → Saves src s (elim run [
        | ok u t ↦ ok tt (record s { device = t })
        | err er t ↦ err er (record s { device = t })
      ])
  unfolding metadata_command prepare_command
  after_save src s run len (write_fails same) = save_failed
  after_save src s run len (write_returns {s' = t} bytes) = saved (
      bytes_ext (bytes_at (d.byte t) 0 (length src)) src (length-bytes_at (d.byte t) 0 (length src))
        (λ k lt.
          let small : k < length src = omega (arith, length-bytes_at (d.byte t) 0 (length src)) in
          get_or-bytes_at (d.byte t) 0 (length src) k small
          ∙ ap (d.byte t) (omega arith)
          ∙ bytes (metadata_command-IsCommand e room) len k
          ∙ ground (arith, len)))

  device_write-Saves :
      (src : List ℕ) (s : FileSystem d)
      → length src ≡ 7 + e.layout.size
      → Saves src s (device_write (metadata_command e) src s)
  unfolding device_write
  device_write-Saves src s len =
      after_save src s (d.write (metadata_command e) src s.device) len
        (faithful.writes (metadata_command e) src s.device)

  -- What TryLoadMetadata makes of a device that holds the record of `g`: the device fails, or the
  -- metadata is `g`, and the runtime states are made from it.
  data LoadsFrom (g : GlobalMetadata) (s : FileSystem d) : Run (FileSystem d) Bool → Type 0 where
    load_failed : {er : Error} {s' : FileSystem d} → LoadsFrom g s (err er s')
    loaded :
        {s' : FileSystem d}
        → s'.metadata ≡ some g
        → s'.active_dbs ≡ load_states g.databases s.active_dbs
        → ((k : ℕ) → d.byte s'.device k ≡ d.byte s.device k)
        → LoadsFrom g s (ok true s')

  after_load :
      (g : GlobalMetadata) (t : d.State) (m : NvmeMetricsState) (a b : ℕ)
      (run : Run d.State (List ℕ))
      → IsStored e.layout g
      → bytes_at (d.byte t) 0 (7 + e.layout.size) ≡ magic_bytes ++ e.layout.encode g
      → Reads d.byte e.geometry (metadata_command e) t run
      → LoadsFrom g
          (new_file_system d t m a b)
          (elim (and_then
              (elim run as (λ _. Run (FileSystem d) (List ℕ)) [
                | ok bs t' ↦ ok bs (record (new_file_system d t m a b) { device = t' })
                | err er t' ↦ err er (record (new_file_system d t m a b) { device = t' })
              ])
              (λ bs.
                elim (parse_metadata e.layout bs)
                  as (λ _. Cmd (FileSystem d) (Option GlobalMetadata)) [
                    | none ↦ pure none
                    | some g' ↦ modify (reset_temp e g'.tmp_start) >> pure (some g')
                  ]))
            as (λ _. Run (FileSystem d) Bool) [
              | err er t ↦ err er t
              | ok none t ↦ ok false t
              | ok (some g) t ↦ ok true (install_metadata e g t)
            ])
  unfolding metadata_command prepare_command new_file_system install_metadata reset_temp
  after_load g t m a b run stored holds (read_fails same) = load_failed
  after_load g t m a b run stored holds (read_returns same bytes) =
      let start : 0 * e.geometry.lba_size + 0 ≡ 0 = omega arith in
      let whole =
        bytes (metadata_command-IsCommand e room)
        ∙ ap (λ k. bytes_at (d.byte t) k (7 + e.layout.size)) start
        ∙ holds in
      let parsed = ap (parse_metadata e.layout) whole ∙ parse_stored e.layout g stored in
      rw parsed (loaded refl refl same)

  try_load_metadata-LoadsFrom :
      (g : GlobalMetadata) (t : d.State) (m : NvmeMetricsState) (a b : ℕ)
      → IsStored e.layout g
      → bytes_at (d.byte t) 0 (7 + e.layout.size) ≡ magic_bytes ++ e.layout.encode g
      → LoadsFrom g (new_file_system d t m a b) (try_load_metadata e (new_file_system d t m a b))
  unfolding try_load_metadata read_metadata device_read new_file_system
  try_load_metadata-LoadsFrom g t m a b stored holds =
      after_load g t m a b (d.read (metadata_command e) t) stored holds
        (faithful.reads (metadata_command e) t)

  with_metadata_exact :
      {A : Type 0} (k : GlobalMetadata → Cmd (FileSystem d) A) (s : FileSystem d)
      (g : GlobalMetadata)
      → s.metadata ≡ some g
      → with_metadata k s ≡ k g s
  unfolding with_metadata
  with_metadata_exact {A} k s g has =
      ap
        (λ o. elim o as (λ _. Run (FileSystem d) A) [
          | none ↦ err null_dereference s
          | some h ↦ k h s
        ])
        has

  save_bytes :
      {src : List ℕ} {s s' : FileSystem d}
      → Saves src s (ok tt s')
      → bytes_at (d.byte s'.device) 0 (length src) ≡ src
  save_bytes (saved bytes) = bytes

  stored_bytes :
      (s s' : FileSystem d) (g : GlobalMetadata)
      → s.metadata ≡ some g
      → IsStored e.layout (with_locations s.active_dbs g)
      → write_metadata e s ≡ ok tt s'
      → bytes_at (d.byte s'.device) 0 (7 + e.layout.size)
        ≡ magic_bytes ++ e.layout.encode (with_locations s.active_dbs g)
  unfolding write_metadata
  stored_bytes s s' g has stored wrote =
      let src = magic_bytes ++ e.layout.encode (with_locations s.active_dbs g) in
      let len : length src ≡ 7 + e.layout.size =
        length-append magic_bytes (e.layout.encode (with_locations s.active_dbs g))
        ∙ ap (λ n. 7 + n) stored.size in
      let run : device_write (metadata_command e) src
            (record s { metadata = some (with_locations s.active_dbs g) })
          ≡ ok tt s' =
        sym (with_metadata_exact _ s g has) ∙ wrote in
      ap (bytes_at (d.byte s'.device) 0) (sym len)
      ∙ save_bytes (subst (Saves src _) run (device_write-Saves src _ len))

  restarts :
      (g : GlobalMetadata) (dbs : List (Str × RuntimeState)) (t : d.State) (m : NvmeMetricsState)
      (a b : ℕ) (run : Run (FileSystem d) Bool)
      → LoadsFrom (with_locations dbs g) (new_file_system d t m a b) run
      → Restarted g dbs run
  unfolding new_file_system
  restarts g dbs t m a b run load_failed = restart_failed
  restarts g dbs t m a b run (loaded same states bytes) =
      restarted same (λ i r st at active once found.
        ap (lookup r.db_path) states
        ∙ load_states-sync_locations dbs g.databases i r st at active once found)

  -- If the layout stores the record, which fits a command: after WriteMetadata has returned, a new file
  -- system on the same device that loads the metadata finds the same regions, and every database with
  -- a name of its own has the ends of its data file and of its log back, unless the device fails to
  -- read. It never takes the device for an empty one.
  pub write_metadata-Restarted :
      (s s' : FileSystem d) (g : GlobalMetadata) (m : NvmeMetricsState) (a b : ℕ)
      → s.metadata ≡ some g
      → IsStored e.layout (with_locations s.active_dbs g)
      → write_metadata e s ≡ ok tt s'
      → Restarted g s.active_dbs (try_load_metadata e (new_file_system d s'.device m a b))
  write_metadata-Restarted s s' g m a b has stored wrote =
      restarts g s.active_dbs s'.device m a b _ (
        try_load_metadata-LoadsFrom (with_locations s.active_dbs g) s'.device m a b stored
          (stored_bytes s s' g has stored wrote))
