-- ===== src/Strategy/Range.antt =====
-- What the range check of a read or write lets through.
use nvmefs.Prelude.{
  ℕ, ◌+◌, ◌/◌, ◌^◌, ◌<◌, ◌≤◌, ◌≡◌, ◌↔◌, ◌⊎◌, Bool, true, add64_exact, sub64_exact, arith, div-lt,
  ◌≢◌, List, some, get_elem?,
}
use nvmefs.Device.{DeviceGeometry, IsSane}
use nvmefs.Metadata.Defs.{DatabaseRegion}
use nvmefs.Metadata.Packed.{Packed, IsWithin, Packed-IsWithin, Packed-Disjoint}
use nvmefs.Strategy.Defs.{
  in_range, db_get_lba, db_is_lba_in_range, wal_get_lba, wal_is_lba_in_range,
}

-- The check, where no sum wraps: the blocks lie between the bounds.
pub in_range_iff :
    (lo hi start count : ℕ)
    → 0 < hi
    → hi ≤ 2 ^ 63
    → start < 2 ^ 63
    → 0 < count
    → count < 2 ^ 63
    → (in_range lo hi start count ≡ true) ↔ ((lo ≤ start) × (start + count ≤ hi))
unfolding in_range
in_range_iff lo hi start count pos small a c b =
    let sum = add64_exact start count (omega arith) in
    let end = sub64_exact (start + count) 1 (omega arith) (omega arith) in
    let top = sub64_exact hi 1 pos (omega arith) in
    rw (sum, end, top) ((λ h. ground arith), (λ h. ground arith))

-- Blocks that lie in the data part of a region, and in its log.
abbrev pub InData : DatabaseRegion → ℕ → ℕ → Type 0
InData r start count = (r.db_start ≤ start) × (start + count ≤ r.wal_start)

abbrev pub InLog : DatabaseRegion → ℕ → ℕ → Type 0
InLog r start count = (r.wal_start ≤ start) × (start + count ≤ r.wal_end)

module _ (r : DatabaseRegion) (hi : ℕ) (w : IsWithin 1 hi r) (small : hi ≤ 2 ^ 62)
    (geo : DeviceGeometry) (sane : IsSane geo) (location count : ℕ) (word : location < 2 ^ 64)
    (pos : 0 < count) (blocks : count < 2 ^ 63) where
  -- For a region on a device of at most 2^62 blocks, a sane geometry, and an access of one block or
  -- more at a location that is a word: the first block of the access to a database file is the start
  -- of the region plus the location in whole blocks, and the range check lets the access through
  -- exactly if all its blocks lie in the data part.
  pub db_range :
      (db_get_lba r geo location ≡ r.db_start + location / geo.lba_size)
      × ((db_is_lba_in_range r (db_get_lba r geo location) count ≡ true)
          ↔ InData r (db_get_lba r geo location) count)
  unfolding db_get_lba db_is_lba_in_range
  db_range =
      let e =
        add64_exact r.db_start (location / geo.lba_size)
          (omega (arith, div-lt location geo.lba_size word sane.block_size)) in
      (
        e,
        in_range_iff r.db_start r.wal_start _ count (omega arith) (omega arith)
            (omega (arith, e, div-lt location geo.lba_size word sane.block_size)) pos blocks,
      )

  -- For a region on a device of at most 2^62 blocks, a sane geometry, and an access of one block or
  -- more at a location that is a word: the first block of the access to a log is the start of the log
  -- plus the location in whole blocks, and the range check lets the access through exactly if all its
  -- blocks lie in the log.
  pub wal_range :
      (wal_get_lba r geo location ≡ r.wal_start + location / geo.lba_size)
      × ((wal_is_lba_in_range r (wal_get_lba r geo location) count ≡ true)
          ↔ InLog r (wal_get_lba r geo location) count)
  unfolding wal_get_lba wal_is_lba_in_range
  wal_range =
      let e =
        add64_exact r.wal_start (location / geo.lba_size)
          (omega (arith, div-lt location geo.lba_size word sane.block_size)) in
      (
        e,
        in_range_iff r.wal_start r.wal_end _ count (omega arith) (omega arith)
            (omega (arith, e, div-lt location geo.lba_size word sane.block_size)) pos blocks,
      )

-- The two files of a region, and whether its strategy lets an access through.
pub data Part : Type 0 where
  data_part log_part : Part

abbrev pub accepts : DatabaseRegion → Part → ℕ → ℕ → Bool
accepts r data_part start count = db_is_lba_in_range r start count
accepts r log_part start count = wal_is_lba_in_range r start count

abbrev In : DatabaseRegion → Part → ℕ → ℕ → Type 0
In r data_part start count = InData r start count
In r log_part start count = InLog r start count

module _ (hi : ℕ) (small : hi ≤ 2 ^ 62) where
  accepts-In :
      (r : DatabaseRegion) (part : Part) (start count : ℕ)
      → IsWithin 1 hi r
      → start < 2 ^ 63
      → 0 < count
      → count < 2 ^ 63
      → accepts r part start count ≡ true
      → In r part start count
  unfolding db_is_lba_in_range wal_is_lba_in_range
  accepts-In r data_part start count w a p b h =
      (in_range_iff r.db_start r.wal_start start count (omega arith) (omega arith) a p b).0 h
  accepts-In r log_part start count w a p b h =
      (in_range_iff r.wal_start r.wal_end start count (omega arith) (omega arith) a p b).0 h

  In-within :
      (r : DatabaseRegion) (part : Part) (start count : ℕ)
      → IsWithin 1 hi r
      → In r part start count
      → (r.db_start ≤ start) × (start + count ≤ r.wal_end)
  In-within r data_part start count w h = omega arith
  In-within r log_part start count w h = omega arith

  -- For a region on a device of at most 2^62 blocks, and accesses of one block or more whose numbers
  -- stay below 2^63: an access that the database file lets through ends before one that the log of
  -- the same region lets through.
  pub accepts-parts :
      (r : DatabaseRegion) (s c t d : ℕ)
      → IsWithin 1 hi r
      → s < 2 ^ 63
      → 0 < c
      → c < 2 ^ 63
      → t < 2 ^ 63
      → 0 < d
      → d < 2 ^ 63
      → accepts r data_part s c ≡ true
      → accepts r log_part t d ≡ true
      → s + c ≤ t
  accepts-parts r s c t d w a p b e q f g h =
      omega (arith, accepts-In r data_part s c w a p b g, accepts-In r log_part t d w e q f h)

  -- For a packed table on a device of at most 2^62 blocks, and accesses of one block or more whose
  -- numbers stay below 2^63: accesses that the strategies of two different active regions let through
  -- share no block, and the first reaches neither the metadata block nor the temporary area.
  pub accepts-Disjoint :
      (rs : List DatabaseRegion) (i j : ℕ) (r q : DatabaseRegion) (part part' : Part) (s c t d : ℕ)
      → Packed 1 hi rs
      → i ≢ j
      → get_elem? rs i ≡ some r
      → get_elem? rs j ≡ some q
      → r.is_active ≡ true
      → q.is_active ≡ true
      → s < 2 ^ 63
      → 0 < c
      → c < 2 ^ 63
      → t < 2 ^ 63
      → 0 < d
      → d < 2 ^ 63
      → accepts r part s c ≡ true
      → accepts q part' t d ≡ true
      → ((s + c ≤ t) ⊎ (t + d ≤ s)) × (1 ≤ s) × (s + c < hi)
  accepts-Disjoint rs i j r q part part' s c t d p ne e f a b s-lt c-pos c-lt t-lt d-pos d-lt g h =
      let w = Packed-IsWithin 1 hi rs i p e a in
      let w' = Packed-IsWithin 1 hi rs j p f b in
      let (l, m) = In-within r part s c w (accepts-In r part s c w s-lt c-pos c-lt g) in
      let (l', m') = In-within q part' t d w' (accepts-In q part' t d w' t-lt d-pos d-lt h) in
      let apart = Packed-Disjoint 1 hi rs i j p ne e f a b in
      (ground arith, omega arith, omega arith)
