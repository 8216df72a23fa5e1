-- ===== src/Strategy/Location.antt =====
-- The location of a file, its end on the device: what writes, truncations and removals do to it.
use native.Mathlib.Nat.{mul-le-mul_right}
use nvmefs.Prelude.{
  ℕ, ◌+◌, ◌-◌, ◌*◌, ◌/◌, ◌^◌, ◌<◌, ◌≤◌, ◌≡◌, refl, ◌⊎◌, inl, inr, ltb, sub64, add64_exact,
  sub64_exact, mul64_exact, arith, Run, ok, err, Error, Bool-cases, ◌∙◌, subst,
  db_truncate_exceeded, wal_truncate_exceeded,
}
use nvmefs.Device.{DeviceGeometry, IsSane, lba_count_bound}
use nvmefs.Metadata.Defs.{DatabaseRegion}
use nvmefs.Metadata.Packed.{IsWithin}
use nvmefs.Strategy.Defs.{
  truncate_to, advance, available, db_truncate, db_update_metadata, db_file_size_lba,
  db_available_space, wal_available_space, wal_truncate, wal_update_metadata, wal_file_size_lba,
}

-- The location after an accepted write: the end of the write or the old end, whichever is further.
advance_exact :
    (start count location : ℕ)
    → start + count < 2 ^ 64
    → (start + count ≤ advance start count location)
      × (location ≤ advance start count location)
      × ((advance start count location ≡ start + count) ⊎ (advance start count location ≡ location))
unfolding advance
advance_exact start count location h = let e = add64_exact start count h in rw e (ground arith)

-- A file's location lies in its part of the region.
abbrev pub InPart : ℕ → ℕ → ℕ → Type 0
InPart lo hi location = (lo ≤ location) × (location ≤ hi)

module _ (r : DatabaseRegion) (hi : ℕ) (w : IsWithin 1 hi r) (small : hi ≤ 2 ^ 62)
    (location start count : ℕ) where
  -- After a write inside the data part of a region, on a device of at most 2^62 blocks, a location in
  -- that part is still in it, the database file covers the write, and it has not become smaller.
  pub db_update_metadata-covers :
      InPart r.db_start r.wal_start location
      → r.db_start ≤ start
      → start + count ≤ r.wal_start
      → InPart r.db_start r.wal_start (db_update_metadata r start count location)
        × (start + count
            ≤ r.db_start + db_file_size_lba r (db_update_metadata r start count location))
        × (db_file_size_lba r location
            ≤ db_file_size_lba r (db_update_metadata r start count location))
  unfolding db_update_metadata db_file_size_lba
  db_update_metadata-covers p a b =
      let (far, further, either) = advance_exact start count location (omega arith) in
      let inside : advance start count location ≤ r.wal_start = ground arith in
      let new = sub64_exact (advance start count location) r.db_start (omega arith) (omega arith) in
      let old = sub64_exact location r.db_start (omega arith) (omega arith) in
      ((omega arith, inside), rw new (omega arith), rw (new, old) (omega arith))

  -- After a write inside the log of a region, on a device of at most 2^62 blocks, a location in the
  -- log is still in it, the log file covers the write, and it has not become smaller.
  pub wal_update_metadata-covers :
      InPart r.wal_start r.wal_end location
      → r.wal_start ≤ start
      → start + count ≤ r.wal_end
      → InPart r.wal_start r.wal_end (wal_update_metadata r start count location)
        × (start + count
            ≤ r.wal_start + wal_file_size_lba r (wal_update_metadata r start count location))
        × (wal_file_size_lba r location
            ≤ wal_file_size_lba r (wal_update_metadata r start count location))
  unfolding wal_update_metadata wal_file_size_lba
  wal_update_metadata-covers p a b =
      let (far, further, either) = advance_exact start count location (omega arith) in
      let inside : advance start count location ≤ r.wal_end = ground arith in
      let new =
        sub64_exact (advance start count location) r.wal_start (omega arith) (omega arith) in
      let old = sub64_exact location r.wal_start (omega arith) (omega arith) in
      ((omega arith, inside), rw new (omega arith), rw (new, old) (omega arith))

-- The results of Truncate on the part from `lo` to `hi`: it throws and moves nothing if the blocks
-- of 4096 bytes that hold the size do not fit, and else the file has that many blocks.
pub data Truncated (lo hi size location : ℕ) (e : Error) : Run ℕ (Unit {0}) → Type 0 where
  exceeded : hi < lo + (size + 4095) / 4096 → Truncated lo hi size location e (err e location)
  resized :
      {location' : ℕ}
      → InPart lo hi location'
      → location' ≡ lo + (size + 4095) / 4096
      → sub64 location' lo ≡ (size + 4095) / 4096
      → Truncated lo hi size location e (ok tt location')

truncate_to-Truncated :
    (lo hi : ℕ) (e : Error) (size location : ℕ)
    → hi ≤ 2 ^ 62
    → lo ≤ hi
    → size < 2 ^ 63
    → Truncated lo hi size location e (truncate_to lo hi e size location)
unfolding truncate_to
truncate_to-Truncated lo hi e size location h k s =
    let sum = add64_exact size 4096 (omega arith) in
    let round = sub64_exact (size + 4096) 1 (omega arith) (omega arith) in
    let blocks : (size + 4096 - 1) / 4096 ≡ (size + 4095) / 4096 = omega arith in
    let end = add64_exact lo ((size + 4095) / 4096) (omega arith) in
    rw (sum, round, blocks, end)
      (elim (Bool-cases (ltb hi (lo + (size + 4095) / 4096))) [
        | inl large ↦ rw large (exceeded (ground arith))
        | inr fits ↦ rw fits (
            resized (omega arith, ground arith) refl
              (sub64_exact (lo + (size + 4095) / 4096) lo (omega arith) (omega arith)
                ∙ omega arith))
      ])

module _ (r : DatabaseRegion) (hi : ℕ) (w : IsWithin 1 hi r) (small : hi ≤ 2 ^ 62)
    (size location : ℕ) (word : size < 2 ^ 63) where
  -- For a region on a device of at most 2^62 blocks and a size below 2^63, Truncate of a database file
  -- throws and moves nothing if the size needs more blocks of 4096 bytes than the data part has, and
  -- else gives the file exactly these blocks, inside the data part.
  pub db_truncate-Truncated :
      Truncated r.db_start r.wal_start size location db_truncate_exceeded
        (db_truncate r size location)
  unfolding db_truncate
  db_truncate-Truncated =
      truncate_to-Truncated r.db_start r.wal_start db_truncate_exceeded size location (omega arith)
        (omega arith) word

  -- For a region on a device of at most 2^62 blocks and a size below 2^63, Truncate of a log throws and moves nothing if the size needs more
  -- blocks of 4096 bytes than the log has, and else gives the log exactly these blocks.
  pub wal_truncate-Truncated :
      Truncated r.wal_start r.wal_end size location wal_truncate_exceeded
        (wal_truncate r size location)
  unfolding wal_truncate
  wal_truncate-Truncated =
      truncate_to-Truncated r.wal_start r.wal_end wal_truncate_exceeded size location (omega arith)
        (omega arith) word

  -- For a region on a device of at most 2^62 blocks and a size below 2^63, a truncation of a database file that returns leaves a file that, in
  -- blocks of 4096 bytes, holds the size asked for and less than a block more.
  pub db_truncate-size :
      (location' : ℕ)
      → db_truncate r size location ≡ ok tt location'
      → (size ≤ db_file_size_lba r location' * 4096)
        × (db_file_size_lba r location' * 4096 < size + 4096)
  unfolding db_file_size_lba
  db_truncate-size location' e = sized location' (
      subst (Truncated r.db_start r.wal_start size location db_truncate_exceeded) e
        db_truncate-Truncated)
    where
      sized :
          (l : ℕ)
          → Truncated r.db_start r.wal_start size location db_truncate_exceeded (ok tt l)
          → (size ≤ sub64 l r.db_start * 4096) × (sub64 l r.db_start * 4096 < size + 4096)
      sized l (resized p q s) = rw s (omega arith)

  -- For a region on a device of at most 2^62 blocks, of at most 2048 bytes each, and a size below 2^63, a truncation to 4096
  -- bytes or more that returns leaves a database file of fewer bytes than asked for.
  pub db_truncate-short :
      (location' lba_size : ℕ)
      → lba_size ≤ 2048
      → 4096 ≤ size
      → db_truncate r size location ≡ ok tt location'
      → db_file_size_lba r location' * lba_size < size
  unfolding db_file_size_lba
  db_truncate-short location' lba_size b large e = short location' (
      subst (Truncated r.db_start r.wal_start size location db_truncate_exceeded) e
        db_truncate-Truncated)
    where
      short :
          (l : ℕ)
          → Truncated r.db_start r.wal_start size location db_truncate_exceeded (ok tt l)
          → sub64 l r.db_start * lba_size < size
      short l (resized p q s) = rw s (grind arith)

part_total :
    (lo top l : ℕ) (geo : DeviceGeometry)
    → IsSane geo
    → InPart lo top l
    → top ≤ geo.lba_count
    → available lo top geo l + sub64 l lo * geo.lba_size ≡ (top - lo) * geo.lba_size
unfolding available
part_total lo top l geo sane p c =
    let bound = lba_count_bound geo sane in
    let n = geo.lba_size in
    let all = sub64_exact top lo (omega arith) (omega arith) in
    let used = sub64_exact l lo (omega arith) (omega arith) in
    let some_used : (l - lo) * n ≤ (top - lo) * n = mul-le-mul_right n (omega arith) in
    let fits : (top - lo) * n ≤ geo.lba_count * n = mul-le-mul_right n (omega arith) in
    let total = mul64_exact (top - lo) n (omega arith) in
    let taken = mul64_exact (l - lo) n (omega arith) in
    let rest = sub64_exact ((top - lo) * n) ((l - lo) * n) some_used (omega arith) in
    rw (all, used, total, taken, rest) (omega arith)

-- For a region that ends before a block of a device with a sane geometry, and locations in their
-- parts of it: the available space and the size of a database make up the data part, in bytes, and
-- those of its log the log.
pub available_space-total :
    (r : DatabaseRegion) (hi : ℕ) (geo : DeviceGeometry) (db wal : ℕ)
    → IsWithin 1 hi r
    → IsSane geo
    → hi ≤ geo.lba_count
    → InPart r.db_start r.wal_start db
    → InPart r.wal_start r.wal_end wal
    → (db_available_space r geo db + db_file_size_lba r db * geo.lba_size
        ≡ (r.wal_start - r.db_start) * geo.lba_size)
      × (wal_available_space r geo wal + wal_file_size_lba r wal * geo.lba_size
          ≡ (r.wal_end - r.wal_start) * geo.lba_size)
unfolding db_available_space wal_available_space db_file_size_lba wal_file_size_lba
available_space-total r hi geo db wal w sane c p q = (
  part_total r.db_start r.wal_start db geo sane p (omega arith),
  part_total r.wal_start r.wal_end wal geo sane q (omega arith),
)
