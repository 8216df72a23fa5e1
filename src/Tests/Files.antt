-- ===== src/Tests/Files.antt =====
-- Two databases, at blocks 1 and 111 of a device of 1000 blocks of 4096 bytes.
use nvmefs.Prelude.{
  ℕ, ◌+◌, ◌*◌, ◌≤◌, ◌<◌, ◌≡◌, refl, ◌⊎◌, inl, List, [], ◌∷◌, some, arith, db_truncate_exceeded,
  wal_truncate_exceeded, add64, sub64, get_elem?, ◌-◌,
}
use nvmefs.Metadata.Defs.{DatabaseRegion}
use nvmefs.Metadata.Packed.{Packed}
use nvmefs.Tests.Layout.{geometry, geometry-IsSane, region_a}
use nvmefs.Strategy.Defs.{
  in_range, db_is_lba_in_range, wal_is_lba_in_range, db_truncate, wal_truncate, truncate_to,
  db_update_metadata, wal_update_metadata, db_file_size_lba, wal_file_size_lba, db_available_space,
  wal_available_space,
}
use nvmefs.Strategy.Range.{data_part, log_part, accepts-Disjoint}
use nvmefs.Strategy.Location.{
  InPart, Truncated, db_update_metadata-covers, wal_update_metadata-covers, db_truncate-Truncated,
  wal_truncate-Truncated, db_truncate-short, available_space-total,
}
use nvmefs.Strategy.Writers.{
  location_sound, Reach, here, next, load, exchange, retry, leave, System, entering_all, returned,
  Reached,
}

abbrev pub region_b : DatabaseRegion
region_b = record region_a {
  db_start = 111;
  wal_start = 311;
  wal_end = 321;
  db_location = 111;
  wal_location = 311;
}

abbrev pub two_regions : List DatabaseRegion
two_regions = region_a ∷ region_b ∷ []

pub two_regions-Packed : Packed 1 900 two_regions
two_regions-Packed = inl (
  refl,
  omega arith,
  omega arith,
  omega arith,
  inl (refl, omega arith, omega arith, omega arith, omega arith),
)

accepts-Disjoint_example : ((5 + 3 ≤ 312) ⊎ (312 + 2 ≤ 5)) × (1 ≤ 5) × (5 + 3 < 900)
unfolding db_is_lba_in_range wal_is_lba_in_range in_range add64 sub64
accepts-Disjoint_example =
    accepts-Disjoint 900 (omega arith) two_regions 0 1 region_a region_b data_part log_part 5 3 312
      2 two_regions-Packed (λ e. omega arith) refl refl refl refl (omega arith) (omega arith)
      (omega arith) (omega arith) (omega arith) (omega arith) refl refl

db_update_metadata-covers_example :
    InPart 1 101 (db_update_metadata region_a 20 5 10)
    × (20 + 5 ≤ 1 + db_file_size_lba region_a (db_update_metadata region_a 20 5 10))
    × (db_file_size_lba region_a 10
        ≤ db_file_size_lba region_a (db_update_metadata region_a 20 5 10))
db_update_metadata-covers_example =
    db_update_metadata-covers region_a 900 (omega arith) (omega arith) 10 20 5 (omega arith)
      (omega arith) (omega arith)

wal_update_metadata-covers_example :
    InPart 101 111 (wal_update_metadata region_a 105 2 104)
    × (105 + 2 ≤ 101 + wal_file_size_lba region_a (wal_update_metadata region_a 105 2 104))
    × (wal_file_size_lba region_a 104
        ≤ wal_file_size_lba region_a (wal_update_metadata region_a 105 2 104))
wal_update_metadata-covers_example =
    wal_update_metadata-covers region_a 900 (omega arith) (omega arith) 104 105 2 (omega arith)
      (omega arith) (omega arith)

db_truncate-Truncated_example :
    Truncated 1 101 10000 50 db_truncate_exceeded (db_truncate region_a 10000 50)
db_truncate-Truncated_example =
    db_truncate-Truncated region_a 900 (omega arith) (omega arith) 10000 50 (omega arith)

wal_truncate-Truncated_example :
    Truncated 101 111 50000 105 wal_truncate_exceeded (wal_truncate region_a 50000 105)
wal_truncate-Truncated_example =
    wal_truncate-Truncated region_a 900 (omega arith) (omega arith) 50000 105 (omega arith)

db_truncate-short_example : db_file_size_lba region_a 4 * 512 < 10000
unfolding db_truncate truncate_to add64 sub64
db_truncate-short_example =
    db_truncate-short region_a 900 (omega arith) (omega arith) 10000 50 (omega arith) 4 512
      (omega arith) (omega arith) refl

available_space-total_example :
    (db_available_space region_a geometry 50 + db_file_size_lba region_a 50 * 4096
      ≡ (101 - 1) * 4096)
    × (wal_available_space region_a geometry 103 + wal_file_size_lba region_a 103 * 4096
        ≡ (111 - 101) * 4096)
available_space-total_example =
    available_space-total region_a 900 geometry 50 103 (omega arith) geometry-IsSane (omega arith)
      (omega arith) (omega arith)

-- Two writers of one file: the second is overtaken, and leaves without an exchange.
abbrev writers : System
writers = record { location = 10; threads = entering_all (25 ∷ 20 ∷ []) }

abbrev both_returned : System
both_returned = record { location = 25; threads = returned 25 ∷ returned 20 ∷ [] }

both_return : Reach writers both_returned
both_return =
    next
      (next
        (next (next (next here (load 1 20 refl)) (load 0 25 refl))
          (exchange 0 25 10 refl (omega arith) refl))
        (retry 1 20 10 refl (omega arith)))
      (leave 1 20 25 refl (omega arith))

location_sound_example :
    (10 ≤ 25)
    × ((i new : ℕ) → get_elem? (returned 25 ∷ returned 20 ∷ []) i ≡ some (returned new) → new ≤ 25)
    × Reached 10 (returned 25 ∷ returned 20 ∷ []) 25
location_sound_example = location_sound 10 (25 ∷ 20 ∷ []) both_returned both_return
