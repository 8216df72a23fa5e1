-- ===== src/FileSystem/Parts.antt =====
-- The two files of a region, as the strategies of the handles see them.
use native.Mathlib.Nat.{lt_of_mul-lt-mul_right, mul-le-mul_right, div-add-mod'}
use native.Mathlib.Nat.{mod-lt}
use nvmefs.Prelude.{
  ℕ, ◌+◌, ◌-◌, ◌*◌, ◌/◌, ◌%◌, ◌^◌, ◌<◌, ◌≤◌, ◌≡◌, refl, ◌↔◌, true, some, Str, lookup, insert,
  string_eq, add64_exact, arith, ok, div-lt,
}
use nvmefs.Device.{DeviceGeometry, IsSane, lba_count_bound, CmdContext, IsCommand}
use nvmefs.Engine.Interface.{BlockDevice, first_byte}
use nvmefs.FileSystem.Blocks.{blocks_for, blocks_for-bounds, calculate_exact, blocks_inside}
use nvmefs.FileSystem.State.{Setup, FileSystem, with_state, calculate_required_lba_count}
use nvmefs.FileSystem.Strategies.{
  on_db, on_wal, strategy_get_lba, strategy_is_lba_in_range, strategy_update_metadata,
}
use nvmefs.Metadata.Defs.{DatabaseRegion}
use nvmefs.Metadata.Packed.{IsWithin}
use nvmefs.Strategy.Defs.{
  lba_of, in_range, advance, db_get_lba, wal_get_lba, db_is_lba_in_range, wal_is_lba_in_range,
  db_update_metadata, wal_update_metadata,
}
use nvmefs.Strategy.Range.{Part, data_part, log_part, in_range_iff}
use nvmefs.Strategy.Temporary.{FileStrategy, database_strategy, wal_strategy, RuntimeState}

abbrev pub bottom : DatabaseRegion → Part → ℕ
bottom r data_part = r.db_start
bottom r log_part = r.wal_start

abbrev pub top : DatabaseRegion → Part → ℕ
top r data_part = r.wal_start
top r log_part = r.wal_end

abbrev pub part_strategy : DatabaseRegion → Part → Str → FileStrategy
part_strategy r data_part name = database_strategy r name
part_strategy r log_part name = wal_strategy r name

-- The runtime state after a write of some blocks.
abbrev pub moved : Part → (start count : ℕ) → RuntimeState → RuntimeState
moved data_part start count st = record st { db_location = advance start count st.db_location }
moved log_part start count st = record st { wal_location = advance start count st.wal_location }

module _ {d : BlockDevice} (e : Setup) (r : DatabaseRegion) (name : Str) (s : FileSystem d) where
  pub part_get_lba :
      (part : Part) (path : Str) (nr_bytes location nr_lbas : ℕ)
      → strategy_get_lba e (part_strategy r part name) path nr_bytes location nr_lbas s
        ≡ ok (lba_of (bottom r part) e.geometry location) s
  unfolding strategy_get_lba db_get_lba wal_get_lba
  part_get_lba data_part path nr_bytes location nr_lbas = refl
  part_get_lba log_part path nr_bytes location nr_lbas = refl

  pub part_is_lba_in_range :
      (part : Part) (start count : ℕ)
      → strategy_is_lba_in_range e (part_strategy r part name) start count s
        ≡ ok (in_range (bottom r part) (top r part) start count) s
  unfolding strategy_is_lba_in_range db_is_lba_in_range wal_is_lba_in_range
  part_is_lba_in_range data_part start count = refl
  part_is_lba_in_range log_part start count = refl

  pub part_update_metadata :
      (part : Part) (ctx : CmdContext) (st : RuntimeState)
      → lookup name s.active_dbs ≡ some st
      → strategy_update_metadata e (part_strategy r part name) ctx s
        ≡ ok tt (record s {
          active_dbs = insert name (moved part ctx.start_lba ctx.nr_lbas st) s.active_dbs;
        })
  unfolding strategy_update_metadata with_state on_db on_wal db_update_metadata wal_update_metadata
  part_update_metadata data_part ctx st h = rw (h, with_state) refl
  part_update_metadata log_part ctx st h = rw (h, with_state) refl

-- An access of one byte or more, and of 65535 blocks at most, whose end is an int64_t.
pub record IsAccess (geo : DeviceGeometry) (nr_bytes location : ℕ) : Type 0 where
  pub some_bytes : 0 < nr_bytes
  pub few_bytes : nr_bytes ≤ 65535 * geo.lba_size
  pub words : location + nr_bytes < 2 ^ 63

-- The region lies on the device, before its last block.
pub record IsOnDevice (geo : DeviceGeometry) (r : DatabaseRegion) : Type 0 where
  pub sane : IsSane geo
  pub inside : IsWithin 1 geo.lba_count r

module _ (geo : DeviceGeometry) (r : DatabaseRegion) (part : Part) (on : IsOnDevice geo r)
    (nr_bytes location : ℕ) (access : IsAccess geo nr_bytes location) where
  abbrev pub part_start : ℕ
  part_start = bottom r part + location / geo.lba_size

  abbrev pub part_count : ℕ
  part_count = blocks_for geo.lba_size (location % geo.lba_size + nr_bytes)

  part_bounds : (bottom r part ≤ top r part) × (top r part ≤ geo.lba_count) × (0 < top r part)
  part_bounds = bounds part
    where
      bounds : (p : Part) → (bottom r p ≤ top r p) × (top r p ≤ geo.lba_count) × (0 < top r p)
      bounds data_part = omega (arith, on.inside)
      bounds log_part = omega (arith, on.inside)

  small_blocks : geo.lba_size ≤ 2 ^ 62
  small_blocks =
      let two : 2 * geo.lba_size ≤ geo.lba_count * geo.lba_size =
        mul-le-mul_right geo.lba_size (omega (arith, on.inside)) in
      omega (arith, on.sane.capacity)

  rest-lt : location % geo.lba_size < geo.lba_size
  rest-lt = mod-lt location (omega (arith, on.sane.block_size))

  pub part_start_exact : lba_of (bottom r part) geo location ≡ part_start
  unfolding lba_of
  part_start_exact = add64_exact (bottom r part) (location / geo.lba_size) (
      omega (
        arith,
        div-lt location geo.lba_size (omega (arith, access.words)) on.sane.block_size,
        part_bounds,
        lba_count_bound geo on.sane,
      ))

  pub part_count_exact :
      calculate_required_lba_count geo nr_bytes (location % geo.lba_size) ≡ part_count
  part_count_exact =
      calculate_exact geo nr_bytes (location % geo.lba_size) (omega (arith, on.sane.block_size))
        (omega (arith, rest-lt, small_blocks, access.words))

  part_count_bounds :
      (0 < part_count)
      × (location % geo.lba_size + nr_bytes ≤ part_count * geo.lba_size)
      × (part_count ≤ 2 ^ 16)
      × (part_count * geo.lba_size < 2 ^ 64)
  part_count_bounds =
      let (p, up, down) =
        blocks_for-bounds geo.lba_size (location % geo.lba_size + nr_bytes)
          (omega (arith, on.sane.block_size)) (omega (arith, access.some_bytes)) in
      let few : part_count * geo.lba_size < 65537 * geo.lba_size =
        omega (arith, rest-lt, access.few_bytes) in
      let lt = lt_of_mul-lt-mul_right geo.lba_size few in
      (p, up, omega arith, omega (arith, rest-lt, small_blocks, access.words))

  -- The check lets the access through exactly if its bytes lie in the part.
  pub part_range_iff :
      (in_range (bottom r part) (top r part) part_start part_count ≡ true)
      ↔ (location + nr_bytes ≤ (top r part - bottom r part) * geo.lba_size)
  part_range_iff =
      let (le, on_device, pos) = part_bounds in
      let (p, up, few, word) = part_count_bounds in
      let bound = lba_count_bound geo on.sane in
      let quotient =
        div-lt location geo.lba_size (omega (arith, access.words)) on.sane.block_size in
      let range =
        in_range_iff (bottom r part) (top r part) part_start part_count pos (omega arith)
          (omega arith) p (omega arith) in
      let inside =
        blocks_inside geo.lba_size location nr_bytes (top r part - bottom r part)
          (omega (arith, on.sane.block_size)) access.some_bytes in
      (
        (λ h. let (a, b) = range.0 h in inside.0 (omega arith)),
        (λ h. let k = inside.1 h in range.1 (omega arith, omega arith)),
      )

  abbrev pub part_command : Str → CmdContext
  part_command path = record {
    nr_bytes = nr_bytes;
    nr_lbas = part_count;
    start_lba = part_start;
    offset = location % geo.lba_size;
    filepath = path;
  }

  pub part_command-IsCommand : (path : Str) → IsCommand geo (part_command path)
  part_command-IsCommand path =
      let (p, up, few, word) = part_count_bounds in
      record {
        some_blocks = p;
        few_blocks = few;
        inside = up;
        words = word;
        last = omega (
          arith,
          div-lt location geo.lba_size (omega (arith, access.words)) on.sane.block_size,
          part_bounds,
          lba_count_bound geo on.sane,
        );
      }

  pub part_first_byte :
      (path : Str) → first_byte geo (part_command path) ≡ bottom r part * geo.lba_size + location
  part_first_byte path = whole (location / geo.lba_size) (div-add-mod' location geo.lba_size)
    where
      whole :
          (q : ℕ)
          → q * geo.lba_size + location % geo.lba_size ≡ location
          → (bottom r part + q) * geo.lba_size + location % geo.lba_size
            ≡ bottom r part * geo.lba_size + location
      whole q h =
          let sum : (bottom r part + q) * geo.lba_size
              ≡ bottom r part * geo.lba_size + q * geo.lba_size =
            grind arith in
          omega arith
