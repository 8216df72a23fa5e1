-- ===== src/Strategy/Defs.antt =====
-- DatabaseFileStrategy and WALFileStrategy over a region and its atomic location. The first functions
-- are the bodies that the two classes share but for the bounds `lo` and `hi` of their part of the
-- region. A loop of compare_exchange_weak runs here with no other thread; Writers has the others.
use nvmefs.Prelude.{
  ℕ, ◌/◌, Bool, true, false, ◌&&◌, ltb, if◌then◌else◌, add64, sub64, mul64, Error,
  db_truncate_exceeded, wal_truncate_exceeded, ok, err, Cmd,
}
use nvmefs.Device.{DeviceGeometry}
use nvmefs.Metadata.Defs.{DatabaseRegion}

unfoldable pub lba_of : ℕ → DeviceGeometry → ℕ → ℕ
lba_of lo geo location = add64 lo (location / geo.lba_size)

-- IsLBAInRange: not below `lo`, and the last block not behind `hi - 1`.
unfoldable pub in_range : ℕ → ℕ → ℕ → ℕ → Bool
in_range lo hi start count =
    if ltb start lo
    then false
    else if ltb 0 count && ltb (sub64 hi 1) (sub64 (add64 start count) 1)
    then false
    else true

-- Truncate counts in blocks of 4096 bytes, whatever the device.
unfoldable pub truncate_to : ℕ → ℕ → Error → ℕ → Cmd ℕ (Unit {0})
truncate_to lo hi e new_size location =
    let nr_lbas = sub64 (add64 new_size 4096) 1 / 4096 in
    let new_location = add64 lo nr_lbas in
    if ltb hi new_location then err e location else ok tt new_location

-- UpdateMetadata: the location moves to the end of the write, unless it is further already.
unfoldable pub advance : ℕ → ℕ → ℕ → ℕ
advance start count location =
    let new_location = add64 start count in
    if ltb new_location location then location else new_location

unfoldable pub available : ℕ → ℕ → DeviceGeometry → ℕ → ℕ
available lo hi geo location =
    sub64 (mul64 (sub64 hi lo) geo.lba_size) (mul64 (sub64 location lo) geo.lba_size)

module _ (r : DatabaseRegion) where
  unfoldable pub db_get_lba : DeviceGeometry → ℕ → ℕ
  unfolding lba_of
  db_get_lba geo location = lba_of r.db_start geo location

  unfoldable pub db_file_exists : ℕ → Bool
  db_file_exists location = ltb 0 (sub64 location r.db_start)

  unfoldable pub db_file_size_lba : ℕ → ℕ
  db_file_size_lba location = sub64 location r.db_start

  unfoldable pub db_truncate : ℕ → Cmd ℕ (Unit {0})
  unfolding truncate_to
  db_truncate new_size = truncate_to r.db_start r.wal_start db_truncate_exceeded new_size

  unfoldable pub db_remove_file : ℕ → ℕ
  db_remove_file location = location

  unfoldable pub db_seek_bound : DeviceGeometry → ℕ
  db_seek_bound geo = mul64 (sub64 r.wal_start r.db_start) geo.lba_size

  unfoldable pub db_is_lba_in_range : ℕ → ℕ → Bool
  unfolding in_range
  db_is_lba_in_range start count = in_range r.db_start r.wal_start start count

  unfoldable pub db_update_metadata : ℕ → ℕ → ℕ → ℕ
  unfolding advance
  db_update_metadata start count location = advance start count location

  unfoldable pub db_available_space : DeviceGeometry → ℕ → ℕ
  unfolding available
  db_available_space geo location = available r.db_start r.wal_start geo location

  unfoldable pub wal_get_lba : DeviceGeometry → ℕ → ℕ
  unfolding lba_of
  wal_get_lba geo location = lba_of r.wal_start geo location

  unfoldable pub wal_file_exists : ℕ → Bool
  wal_file_exists location = true

  unfoldable pub wal_file_size_lba : ℕ → ℕ
  wal_file_size_lba location = sub64 location r.wal_start

  unfoldable pub wal_truncate : ℕ → Cmd ℕ (Unit {0})
  unfolding truncate_to
  wal_truncate new_size = truncate_to r.wal_start r.wal_end wal_truncate_exceeded new_size

  unfoldable pub wal_remove_file : ℕ → ℕ
  wal_remove_file location = r.wal_start

  unfoldable pub wal_seek_bound : DeviceGeometry → ℕ
  wal_seek_bound geo = mul64 (sub64 r.wal_end r.wal_start) geo.lba_size

  unfoldable pub wal_is_lba_in_range : ℕ → ℕ → Bool
  unfolding in_range
  wal_is_lba_in_range start count = in_range r.wal_start r.wal_end start count

  unfoldable pub wal_update_metadata : ℕ → ℕ → ℕ → ℕ
  unfolding advance
  wal_update_metadata start count location = advance start count location

  unfoldable pub wal_available_space : DeviceGeometry → ℕ → ℕ
  unfolding available
  wal_available_space geo location = available r.wal_start r.wal_end geo location
