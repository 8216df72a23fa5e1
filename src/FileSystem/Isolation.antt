-- ===== src/FileSystem/Isolation.antt =====
-- The files of a device as byte arrays: what is written is read, and other files stay as they are.
use native.Mathlib.Nat.{mul-le-mul_right}
use nvmefs.Prelude.{
  if◌then◌else◌, ℕ, ◌+◌, ◌-◌, ◌*◌, ◌/◌, ◌<◌, ◌≤◌, ◌≡◌, ◌≢◌, refl, ◌∙◌, ap, subst, ◌⊎◌, inl, inr,
  true, false, List, some, length, get_or, get_elem?, bytes_at, within, Str, lookup, string_eq,
  arith, Run, ok, final, length-bytes_at, get_or-bytes_at,
}
use nvmefs.Engine.Interface.{BlockDevice, IsFaithful}
use nvmefs.FileSystem.Blocks.{blocks_inside}
use nvmefs.FileSystem.Files.{
  file_start, part_size, start_block, block_count, ReadAt, read_done, WriteAt, write_refused,
  write_failed, write_done, read_at-ReadAt, write_at-WriteAt,
}
use nvmefs.FileSystem.Parts.{bottom, top, part_strategy, IsAccess, IsOnDevice}
use nvmefs.FileSystem.State.{Setup, FileSystem, NvmeFileHandle}
use nvmefs.FileSystem.Transfer.{read_at, write_at}
use nvmefs.Metadata.Defs.{DatabaseRegion}
use nvmefs.Metadata.Packed.{Packed, IsWithin, Packed-IsWithin, Packed-Disjoint}
use nvmefs.Strategy.Range.{Part, data_part, log_part}
use nvmefs.Strategy.Temporary.{RuntimeState}

module _ (e : Setup) (r : DatabaseRegion) (part : Part) (on : IsOnDevice e.geometry r) where
  part_le : bottom r part ≤ top r part
  part_le = le part
    where
      le : (p : Part) → bottom r p ≤ top r p
      le data_part = omega (arith, on.inside)
      le log_part = omega (arith, on.inside)

  -- The position behind the last byte of a part.
  part_end : file_start e r part + part_size e r part ≡ top r part * e.geometry.lba_size
  part_end = sums (bottom r part) (top r part) part_le
    where
      sums :
          (b t : ℕ)
          → b ≤ t
          → b * e.geometry.lba_size + (t - b) * e.geometry.lba_size ≡ t * e.geometry.lba_size
      sums b t h = grind arith

  -- The blocks of an access to a part lie in it.
  blocks_in_part :
      (nr_bytes location : ℕ)
      → IsAccess e.geometry nr_bytes location
      → location + nr_bytes ≤ part_size e r part
      → (file_start e r part ≤ start_block e r part location * e.geometry.lba_size)
        × (start_block e r part location * e.geometry.lba_size
              + block_count e r part location nr_bytes * e.geometry.lba_size
            ≤ file_start e r part + part_size e r part)
  blocks_in_part nr_bytes location access fits =
      let n = e.geometry.lba_size in
      let inside =
        (blocks_inside n location nr_bytes (top r part - bottom r part)
            (omega (arith, on.sane.block_size)) access.some_bytes).1
          fits in
      let low : bottom r part * n ≤ (bottom r part + location / n) * n =
        mul-le-mul_right n (omega arith) in
      let high : (bottom r part + location / n + block_count e r part location nr_bytes) * n
          ≤ top r part * n =
        mul-le-mul_right n (omega (arith, part_le)) in
      (low, joined (bottom r part + location / n) (block_count e r part location nr_bytes) high)
    where
      joined :
          (a c : ℕ)
          → (a + c) * e.geometry.lba_size ≤ top r part * e.geometry.lba_size
          → a * e.geometry.lba_size + c * e.geometry.lba_size
            ≤ file_start e r part + part_size e r part
      joined a c h =
          let sum : (a + c) * e.geometry.lba_size
              ≡ a * e.geometry.lba_size + c * e.geometry.lba_size =
            grind arith in
          omega (arith, part_end)

module _ {d : BlockDevice} (e : Setup) (faithful : IsFaithful e.geometry d) (r : DatabaseRegion)
    (on : IsOnDevice e.geometry r) (part : Part) (name : Str) (fh : NvmeFileHandle)
    (uses : fh.strategy ≡ some (part_strategy r part name)) (s : FileSystem d) (src : List ℕ)
    (st : RuntimeState) (opened : lookup name s.active_dbs ≡ some st) (location : ℕ)
    (access : IsAccess e.geometry (length src) location) where
  outside :
      (k : ℕ)
      → within (file_start e r part) (part_size e r part) k ≡ false
      → (run : Run (FileSystem d) (Unit {0})) → WriteAt e r part fh name src location s run
      → d.byte (final run).device k ≡ d.byte s.device k
  outside k out run (write_refused h) = refl
  outside k out run (write_failed fits same) =
      let (low, high) = blocks_in_part e r part on (length src) location access fits in
      same k (ground arith)
  outside k out run (write_done fits bytes found) =
      let miss : within (file_start e r part + location) (length src) k ≡ false = ground arith in
      bytes k ∙ rw miss refl

  -- A write to a file, whatever its result, leaves every byte outside its part of the region as it was.
  pub write_at-outside :
      (k : ℕ)
      → within (file_start e r part) (part_size e r part) k ≡ false
      → d.byte (final (write_at e fh src location s)).device k ≡ d.byte s.device k
  write_at-outside k out =
      outside k out _
        (write_at-WriteAt e faithful r on part name fh uses s location src st opened access)

-- A byte of a file.
abbrev pub file_byte : {d : BlockDevice} → Setup → DatabaseRegion → Part → FileSystem d → ℕ → ℕ
file_byte {d} e q part t k = d.byte t.device (file_start e q part + k)

-- Two different files of a packed table lie apart.
parts_apart :
    (r q : DatabaseRegion) (part part' : Part) (hi : ℕ)
    → IsWithin 1 hi r
    → IsWithin 1 hi q
    → ((r.wal_end ≤ q.db_start) ⊎ (q.wal_end ≤ r.db_start))
    → (top r part ≤ bottom q part') ⊎ (top q part' ≤ bottom r part)
parts_apart r q data_part data_part hi w v h = ground arith
parts_apart r q data_part log_part hi w v h = ground arith
parts_apart r q log_part data_part hi w v h = ground arith
parts_apart r q log_part log_part hi w v h = ground arith

same_region_apart :
    (r : DatabaseRegion) (part part' : Part) (hi : ℕ)
    → IsWithin 1 hi r
    → part ≢ part'
    → (top r part ≤ bottom r part') ⊎ (top r part' ≤ bottom r part)
same_region_apart r data_part data_part hi w ne = absurd (ne refl)
same_region_apart r data_part log_part hi w ne = ground arith
same_region_apart r log_part data_part hi w ne = ground arith
same_region_apart r log_part log_part hi w ne = absurd (ne refl)

-- Positions of one of two files that lie apart are not in the other.
apart_bytes :
    (e : Setup) (r q : DatabaseRegion) (part part' : Part)
    → IsOnDevice e.geometry r
    → IsOnDevice e.geometry q
    → (top r part ≤ bottom q part') ⊎ (top q part' ≤ bottom r part)
    → (k : ℕ) → k < part_size e q part'
    → within (file_start e r part) (part_size e r part) (file_start e q part' + k) ≡ false
apart_bytes e r q part part' on on' (inl h) k lt =
    let le = mul-le-mul_right e.geometry.lba_size h in ground (arith, part_end e r part on)
apart_bytes e r q part part' on on' (inr h) k lt =
    let le = mul-le-mul_right e.geometry.lba_size h in ground (arith, part_end e q part' on')

module _ {d : BlockDevice} (e : Setup) (faithful : IsFaithful e.geometry d) (r : DatabaseRegion)
    (on : IsOnDevice e.geometry r) (part : Part) (name : Str) (fh : NvmeFileHandle)
    (uses : fh.strategy ≡ some (part_strategy r part name)) (s : FileSystem d) (src : List ℕ)
    (st : RuntimeState) (opened : lookup name s.active_dbs ≡ some st) (location : ℕ)
    (access : IsAccess e.geometry (length src) location) where
  -- On a faithful device with a packed table of regions: a write to a file of an active region, whose
  -- database is open, of one byte or more, of at most 65535 blocks' bytes and with its end below 2^63,
  -- leaves every byte of every other file of an active region as it was, whatever its result.
  pub write_at-others :
      (rs : List DatabaseRegion) (i j : ℕ) (q : DatabaseRegion) (part' : Part)
      → Packed 1 e.geometry.lba_count rs
      → get_elem? rs i ≡ some r
      → get_elem? rs j ≡ some q
      → r.is_active ≡ true
      → q.is_active ≡ true
      → ((i ≢ j) ⊎ ((r ≡ q) × (part ≢ part')))
      → (k : ℕ) → k < part_size e q part'
      → file_byte e q part' (final (write_at e fh src location s)) k ≡ file_byte e q part' s k
  write_at-others rs i j q part' packed at_i at_j active active' other k lt =
      let hi = e.geometry.lba_count in
      let w = Packed-IsWithin 1 hi rs j packed at_j active' in
      let on' : IsOnDevice e.geometry q = record { sane = on.sane; inside = w } in
      let apart : (top r part ≤ bottom q part') ⊎ (top q part' ≤ bottom r part) = elim other [
        | inl ne ↦
            parts_apart r q part part' hi on.inside w
              (Packed-Disjoint 1 hi rs i j packed ne at_i at_j active active')
        | inr (same, ne) ↦
            subst (λ x. (top r part ≤ bottom x part') ⊎ (top x part' ≤ bottom r part)) same
              (same_region_apart r part part' hi on.inside ne)
      ] in
      write_at-outside e faithful r on part name fh uses s src st opened location access
        (file_start e q part' + k) (apart_bytes e r q part part' on on' apart k lt)

  own_bytes :
      (s' : FileSystem d)
      → WriteAt e r part fh name src location s (ok tt s')
      → (k : ℕ)
      → file_byte e r part s' k ≡ (
          if within location (length src) k
          then get_or src (k - location) 0
          else file_byte e r part s k)
  own_bytes s' (write_done fits bytes found) k = bytes (file_start e r part + k) ∙ ground (arith)

  -- On a faithful device, for a file of a region on the device whose database is open, and for accesses
  -- of one byte or more, of at most 65535 blocks' bytes and with their end below 2^63: once a write has
  -- returned, a read of the same file that returns gives the bytes that were written where it meets
  -- them, and the bytes that the file had before elsewhere.
  pub read_at-write_at :
      (s' s'' : FileSystem d) (fh' : NvmeFileHandle) (nr_bytes from k : ℕ) (bs : List ℕ)
      → fh'.strategy ≡ some (part_strategy r part name)
      → write_at e fh src location s ≡ ok tt s'
      → IsAccess e.geometry nr_bytes from
      → read_at e fh' nr_bytes from s' ≡ ok bs s''
      → k < nr_bytes
      → (length bs ≡ nr_bytes)
        × (get_or bs k 0 ≡ (
            if within location (length src) (from + k)
            then get_or src (from + k - location) 0
            else file_byte e r part s (from + k)))
  read_at-write_at s' s'' fh' nr_bytes from k bs uses' wrote access' read lt =
      let own =
        own_bytes s'
          (subst (WriteAt e r part fh name src location s) wrote
            (write_at-WriteAt e faithful r on part name fh uses s location src st opened access))
          (from + k) in
      let whole = got (
        subst (ReadAt e r part nr_bytes from s') read
          (read_at-ReadAt e faithful r on part name fh' uses' s' from nr_bytes access')) in
      (
        ap length whole ∙ length-bytes_at _ _ nr_bytes,
        ap (λ l. get_or l k 0) whole
            ∙ get_or-bytes_at (d.byte s'.device) (file_start e r part + from) nr_bytes k lt
            ∙ ap (d.byte s'.device) (omega arith)
            ∙ own,
      )
    where
      got :
          {t : FileSystem d}
          → ReadAt e r part nr_bytes from s' (ok bs t)
          → bs ≡ bytes_at (d.byte s'.device) (file_start e r part + from) nr_bytes
      got (read_done fits same bytes) = bytes
