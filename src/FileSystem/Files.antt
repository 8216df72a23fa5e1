-- ===== src/FileSystem/Files.antt =====
-- Reads and writes of database files and logs, at any place of a file.
use nvmefs.Prelude.{
  ℕ, ◌+◌, ◌-◌, ◌*◌, ◌/◌, ◌%◌, ◌<◌, ◌≤◌, ◌≡◌, refl, sym, inl, inr, false, List, some, if◌then◌else◌,
  length, get_or, bytes_at, within, Str, lookup, insert, string_eq, arith, Run, ok, err, Error, Cmd,
  and_then, read_out_of_range, write_out_of_range, Bool-cases, modify, ◌>>=◌,
}
use nvmefs.Engine.Interface.{
  BlockDevice, IsFaithful, Reads, read_fails, read_returns, Writes, write_fails, write_returns,
}
use nvmefs.FileSystem.Blocks.{blocks_for}
use nvmefs.FileSystem.Parts.{
  bottom, top, part_strategy, moved, IsAccess, IsOnDevice, part_start, part_count, part_command,
  part_get_lba, part_is_lba_in_range, part_update_metadata, part_start_exact, part_count_exact,
  part_range_iff, part_command-IsCommand, part_first_byte,
}
use nvmefs.FileSystem.State.{
  Setup, FileSystem, NvmeFileHandle, prepare_command, device_read, device_write,
}
use nvmefs.FileSystem.Strategies.{strategy_update_metadata}
use nvmefs.FileSystem.Transfer.{read_at, write_at, with_strategy, count_write}
use nvmefs.Metadata.Defs.{DatabaseRegion}
use nvmefs.Strategy.Defs.{in_range}
use nvmefs.Strategy.Range.{Part}
use nvmefs.Strategy.Temporary.{FileStrategy, RuntimeState}

module _ (e : Setup) (r : DatabaseRegion) (part : Part) where
  -- The position on the device of the first byte of a file, and the size of its part.
  abbrev pub file_start : ℕ
  file_start = bottom r part * e.geometry.lba_size

  -- The first block of an access, and the number of its blocks.
  abbrev pub start_block : (location : ℕ) → ℕ
  start_block location = bottom r part + location / e.geometry.lba_size

  abbrev pub block_count : (location nr_bytes : ℕ) → ℕ
  block_count location nr_bytes =
      blocks_for e.geometry.lba_size (location % e.geometry.lba_size + nr_bytes)

  abbrev pub part_size : ℕ
  part_size = (top r part - bottom r part) * e.geometry.lba_size

module _ {d : BlockDevice} (e : Setup) (r : DatabaseRegion) (part : Part) where
  -- The results of a read: it is refused if it does not lie in the part, it fails, or it gives the
  -- bytes; no byte of the device changes, and no member of the file system.
  pub data ReadAt (nr_bytes location : ℕ) (s : FileSystem d)
      : Run (FileSystem d) (List ℕ) → Type 0 where
    read_refused :
        part_size e r part < location + nr_bytes
        → ReadAt nr_bytes location s (err read_out_of_range s)
    read_failed :
        {er : Error} {t : d.State}
        → location + nr_bytes ≤ part_size e r part
        → ((k : ℕ) → d.byte t k ≡ d.byte s.device k)
        → ReadAt nr_bytes location s (err er (record s { device = t }))
    read_done :
        {bs : List ℕ} {t : d.State}
        → location + nr_bytes ≤ part_size e r part
        → ((k : ℕ) → d.byte t k ≡ d.byte s.device k)
        → bs ≡ bytes_at (d.byte s.device) (file_start e r part + location) nr_bytes
        → ReadAt nr_bytes location s (ok bs (record s { device = t }))

  -- The results of a write: it is refused if it does not lie in the part; it fails, and leaves all
  -- other blocks alone; or the bytes given are at their place, all others are as before, the location
  -- of the file has moved and the write is counted.
  pub data WriteAt (fh : NvmeFileHandle) (name : Str) (src : List ℕ) (location : ℕ)
      (s : FileSystem d) : Run (FileSystem d) (Unit {0}) → Type 0 where
    write_refused :
        part_size e r part < location + length src
        → WriteAt fh name src location s (err write_out_of_range s)
    write_failed :
        {er : Error} {t : d.State}
        → location + length src ≤ part_size e r part
        → ((k : ℕ)
            → within
                (start_block e r part location * e.geometry.lba_size)
                (block_count e r part location (length src) * e.geometry.lba_size)
                k
              ≡ false
            → d.byte t k ≡ d.byte s.device k)
        → WriteAt fh name src location s (err er (record s { device = t }))
    write_done :
        {t : d.State} {st : RuntimeState}
        → location + length src ≤ part_size e r part
        → ((k : ℕ)
            → d.byte t k ≡ (
                if within (file_start e r part + location) (length src) k
                then get_or src (k - (file_start e r part + location)) 0
                else d.byte s.device k))
        → lookup name s.active_dbs ≡ some st
        → WriteAt fh name src location s (
            ok tt (record s {
              device = t;
              active_dbs =
                  insert name
                    (moved part
                      (start_block e r part location)
                      (block_count e r part location (length src))
                      st)
                    s.active_dbs;
              metrics = count_write fh (length src) location s.metrics;
            }))

module _ {d : BlockDevice} (e : Setup) (faithful : IsFaithful e.geometry d) (r : DatabaseRegion)
    (on : IsOnDevice e.geometry r) (part : Part) (name : Str) (fh : NvmeFileHandle)
    (uses : fh.strategy ≡ some (part_strategy r part name)) (s : FileSystem d) (location : ℕ) where
  with_strategy_exact :
      {A : Type 0} (k : FileStrategy → Cmd (FileSystem d) A)
      → with_strategy e fh k ≡ k (part_strategy r part name)
  unfolding with_strategy
  with_strategy_exact k = rw uses refl

  after_read :
      (nr_bytes : ℕ) (access : IsAccess e.geometry nr_bytes location)
      → location + nr_bytes ≤ part_size e r part
      → (run : Run d.State (List ℕ))
      → Reads d.byte e.geometry
          (part_command e.geometry r part on nr_bytes location access fh.path)
          s.device
          run
      → ReadAt e r part nr_bytes location s (elim run [
        | ok bs t ↦ ok bs (record s { device = t })
        | err er t ↦ err er (record s { device = t })
      ])
  after_read nr_bytes access fits run (read_fails same) = read_failed fits same
  after_read nr_bytes access fits run (read_returns same bytes) = read_done fits same (
      rw (sym (part_first_byte e.geometry r part on nr_bytes location access fh.path))
        (bytes (part_command-IsCommand e.geometry r part on nr_bytes location access fh.path)))

  -- On a faithful device, for a handle of a file of a region that ends before the last block, and an
  -- access of one byte or more, of at most 65535 blocks, that ends below 2^63: a read is refused if
  -- it reaches behind the part of the region, fails with the device, or gives the bytes of the file at
  -- the place; it changes no byte of the device and no member of the file system.
  pub read_at-ReadAt :
      (nr_bytes : ℕ)
      → IsAccess e.geometry nr_bytes location
      → ReadAt e r part nr_bytes location s (read_at e fh nr_bytes location s)
  unfolding read_at prepare_command device_read
  read_at-ReadAt nr_bytes access =
      let range = part_range_iff e.geometry r part on nr_bytes location access in
      rw (with_strategy_exact _, read_at)
        (rw
          (
            part_get_lba e r name s part fh.path nr_bytes location _,
            part_is_lba_in_range e r name s part _ _,
            part_start_exact e.geometry r part on nr_bytes location access,
            part_count_exact e.geometry r part on nr_bytes location access,
          )
          (elim (Bool-cases (in_range (bottom r part) (top r part) start count)) [
            | inl inside ↦
                rw inside
                  (after_read nr_bytes access (range.0 inside) _ (faithful.reads _ s.device))
            | inr outside ↦ rw outside (read_refused (ground (arith, range.1)))
          ]))
    where
      start : ℕ
      start = part_start e.geometry r part on nr_bytes location access

      count : ℕ
      count = part_count e.geometry r part on nr_bytes location access

  after_write :
      (src : List ℕ) (access : IsAccess e.geometry (length src) location) (st : RuntimeState)
      → lookup name s.active_dbs ≡ some st
      → location + length src ≤ part_size e r part
      → (run : Run d.State (Unit {0}))
      → Writes d.byte e.geometry
          (part_command e.geometry r part on (length src) location access fh.path)
          src
          s.device
          run
      → WriteAt e r part fh name src location s (
          and_then
            (elim run as (λ _. Run (FileSystem d) (Unit {0})) [
              | ok u t ↦ ok tt (record s { device = t })
              | err er t ↦ err er (record s { device = t })
            ])
            (λ x.
              strategy_update_metadata e
                (part_strategy r part name)
                (part_command e.geometry r part on (length src) location access fh.path)
              >>= (λ y.
                  modify (λ s'. record s' {
                    metrics = count_write fh (length src) location s'.metrics;
                  }))))
  after_write src access st opened fits run (write_fails same) =
      write_failed fits
        (same (part_command-IsCommand e.geometry r part on (length src) location access fh.path))
  after_write src access st opened fits run (write_returns {s' = t} bytes) =
      rw
        (part_update_metadata e r name (record s { device = t }) part
          (part_command e.geometry r part on (length src) location access fh.path) st opened)
        (write_done fits
          (rw (sym (part_first_byte e.geometry r part on (length src) location access fh.path)) (
            bytes (part_command-IsCommand e.geometry r part on (length src) location access fh.path)
              refl))
          opened)

  -- On a faithful device, for a handle of a file of a region that ends before the last block, whose
  -- database is open, and an access of one byte or more, of at most 65535 blocks, that ends below 2^63:
  -- a write is refused, and changes nothing, if it reaches behind the part of the region; it fails
  -- with the device, and changes only bytes of its own blocks; or the bytes given stand at the place, all
  -- others are as before, the location of the file has moved on and the metrics count the write.
  pub write_at-WriteAt :
      (src : List ℕ) (st : RuntimeState)
      → lookup name s.active_dbs ≡ some st
      → IsAccess e.geometry (length src) location
      → WriteAt e r part fh name src location s (write_at e fh src location s)
  unfolding write_at prepare_command device_write
  write_at-WriteAt src st opened access =
      let range = part_range_iff e.geometry r part on (length src) location access in
      rw (with_strategy_exact _, write_at)
        (rw
          (
            part_get_lba e r name s part fh.path (length src) location _,
            part_is_lba_in_range e r name s part _ _,
            part_start_exact e.geometry r part on (length src) location access,
            part_count_exact e.geometry r part on (length src) location access,
          )
          (elim (Bool-cases (in_range (bottom r part) (top r part) start count)) [
            | inl inside ↦ rw inside (
                after_write src access st opened (range.0 inside) _
                  (faithful.writes _ src s.device))
            | inr outside ↦ rw outside (write_refused (ground (arith, range.1)))
          ]))
    where
      start : ℕ
      start = part_start e.geometry r part on (length src) location access

      count : ℕ
      count = part_count e.geometry r part on (length src) location access
