-- ===== src/Metadata/Fresh.antt =====
-- InitializeMetadata as a whole: the table that it makes for a list of configured databases, and
-- its failure when none is configured.
use nvmefs.Prelude.{
  ℕ, zero, suc, ◌+◌, ◌-◌, ◌/◌, ◌<◌, ◌≤◌, ◌^◌, ◌≡◌, refl, inl, inr, true, List, [], ◌∷◌, some, arith,
  length, All, add64, sub64, sub64_exact, add64_exact, sub64-lt, ltb, leb, Str, set, subst,
  Bool-cases, ok, err, max_databases, insufficient_space, Run, Cmd, div-lt, if◌then◌else◌, pure,
  replicate, str_eq_refl, and_then, get_elem?, sym,
}
use native.Mathlib.Nat.{div-le_self}
use nvmefs.Device.{DeviceGeometry, IsSane, lba_count_bound}
use nvmefs.Metadata.Defs.{
  highest_lba, zero_region, DatabaseRegion, GlobalMetadata, NvmeConfig, Registration, place,
  find_region, strncpy_path, get_region, register_db, register_configs, register_all,
  fresh_metadata, first_allocated, no_regions, temp_start, max_nvme_databases,
}
use nvmefs.Metadata.Packed.{IsVacant}
use nvmefs.Metadata.Allocate.{IsLaidOut}
use nvmefs.Metadata.Initialize.{
  IsRegistered, Registers, refused_count, refused_space, registered, register_db-Registers,
  register_configs-Registers, find_region_at, first_allocated-find_region,
}

fills : (t w : ℕ) → t < 2 ^ 64 → w < 2 ^ 64 → add64 (add64 1 (sub64 (sub64 t 1) w)) w ≡ t
unfolding add64 sub64
fills t w a b = omega arith

leb_self : (n : ℕ) → leb n n ≡ true
leb_self n = ground arith

-- With no configured database, and a log size that is a word, InitializeMetadata throws for lack of
-- space, whatever the device and the database.
pub fresh_metadata-empty :
    (config : NvmeConfig) (geo : DeviceGeometry) (first : Str)
    → config.db_configs ≡ []
    → config.max_wal_size < 2 ^ 64
    → fresh_metadata config geo first ≡ err insufficient_space no_regions
unfolding fresh_metadata register_all register_db temp_start
fresh_metadata-empty config geo first e w =
    let tmp = sub64 geo.lba_count (config.max_temp_size / geo.lba_size) in
    let wal = config.max_wal_size / geo.lba_size in
    let usable = sub64 (sub64 tmp 1) wal in
    let full : add64 (add64 1 usable) wal ≡ tmp =
      fills tmp wal (sub64-lt _ _) (omega (arith, div-le_self config.max_wal_size geo.lba_size)) in
    rw (e, full) (rw (leb_self tmp))

register_db_no_room :
    (tmp wal : ℕ) (name : Str) (lbas : ℕ)
    → tmp ≤ 1
    → lbas < 2 ^ 62
    → wal < 2 ^ 62
    → register_db tmp wal name lbas no_regions ≡ err insufficient_space no_regions
unfolding register_db
register_db_no_room tmp wal name lbas h a b =
    rw (add64_exact 1 lbas (omega arith), add64_exact (1 + lbas) wal (omega arith)) (ground arith)

IsVacant-slots : (n : ℕ) → All IsVacant (replicate n zero_region)
IsVacant-slots zero = tt
IsVacant-slots (suc n) = (refl, IsVacant-slots n)

no_regions-IsRegistered : (tmp : ℕ) → 1 < tmp → IsRegistered tmp no_regions
unfolding highest_lba
no_regions-IsRegistered tmp h = record {
  slots = refl;
  counted = refl;
  packed = inr (refl, h, IsVacant-slots 15);
  top = refl;
}

-- What the registrations of a nonempty configuration give: the table, packed, where the first
-- database can be found if its name fits a path.
pub data Registered (tmp : ℕ) (first : Str) : Run Registration (Unit {0}) → Type 0 where
  no_slot : {r : Registration} → Registered tmp first (err max_databases r)
  no_space : {r : Registration} → Registered tmp first (err insufficient_space r)
  table :
      {r : Registration}
      → IsRegistered tmp r
      → (strncpy_path first ≡ first
          → (s : DatabaseRegion) × (find_region first r.databases ≡ some s))
      → Registered tmp first (ok tt r)

get_elem?-set_self {ℓ} :
    {A : Type ℓ} (xs : List A) (i : ℕ) (v : A) → i < length xs → get_elem? (set xs i v) i ≡ some v
get_elem?-set_self [] i v h = absurd (omega arith)
get_elem?-set_self (x ∷ xs) zero v h = refl
get_elem?-set_self (x ∷ xs) (suc i) v h = get_elem?-set_self xs i v (omega arith)

-- The table that a successful registration leaves.
register_db-databases :
    (tmp wal : ℕ) (name : Str) (lbas : ℕ) (r r' : Registration)
    → register_db tmp wal name lbas r ≡ ok tt r'
    → (r.db_idx < max_nvme_databases)
      × (r'.databases
          ≡ set r.databases r.db_idx
              (place (get_region r.databases r.db_idx) name r.current_lba lbas wal))
unfolding register_db
register_db-databases tmp wal name lbas r r' e = ground arith

module _ (tmp wal : ℕ) (range : tmp ≤ 2 ^ 63) (small : wal < 2 ^ 62) (first : Str) where
  -- The entry that `register_db` writes can be found by its name.
  register_db-find_region :
      (lbas : ℕ) (r r' : Registration)
      → IsRegistered tmp r
      → register_db tmp wal first lbas r ≡ ok tt r'
      → strncpy_path first ≡ first
      → (s : DatabaseRegion) × (find_region first r'.databases ≡ some s)
  unfolding place
  register_db-find_region lbas r r' v e fits =
      let (few, written) = register_db-databases tmp wal first lbas r r' e in
      let new = place (get_region r.databases r.db_idx) first r.current_lba lbas wal in
      let here : get_elem? r'.databases r.db_idx ≡ some new =
        rw written (get_elem?-set_self r.databases r.db_idx new (omega (arith, v.slots))) in
      find_region_at first r.db_idx r'.databases here refl (rw fits (str_eq_refl first))

  register_last :
      (lbas : ℕ) (r : Registration)
      → IsRegistered tmp r
      → lbas < 2 ^ 62
      → Registered tmp first (register_db tmp wal first lbas r)
  register_last lbas r v a =
      named (register_db tmp wal first lbas r)
        (register_db-Registers tmp wal first lbas r v range a small)
        (λ r' e. register_db-find_region lbas r r' v e)
    where
      named :
          (m : Run Registration (Unit {0}))
          → Registers tmp m
          → ((r' : Registration)
              → m ≡ ok tt r'
              → strncpy_path first ≡ first
              → (s : DatabaseRegion) × (find_region first r'.databases ≡ some s))
          → Registered tmp first m
      named m refused_count k = no_slot
      named m refused_space k = no_space
      named m (registered {r} w) k = table w (k r refl)

  module _ (config : NvmeConfig) (geo : DeviceGeometry) (sane : IsSane geo)
      (default : config.default_db_size < 2 ^ 64) where
    finish : Cmd Registration (Unit {0})
    finish r =
        (if first_allocated first r.db_idx r.databases
            then pure tt
            else register_db tmp wal first (config.default_db_size / geo.lba_size))
          r

    finish-Registered : (r : Registration) → IsRegistered tmp r → Registered tmp first (finish r)
    unfolding finish
    finish-Registered r v = elim (Bool-cases (first_allocated first r.db_idx r.databases)) [
      | inl found ↦ rw found (
          table v (λ fits.
            first_allocated-find_region first 1 tmp r.db_idx r.databases v.packed v.counted found))
      | inr missing ↦ rw missing (register_last _ r v (div-lt _ _ default sane.block_size))
    ]

    after_configs :
        (m : Run Registration (Unit {0}))
        → Registers tmp m
        → Registered tmp first (and_then m (λ _. finish))
    after_configs m refused_count = no_slot
    after_configs m refused_space = no_space
    after_configs m (registered {r} w) = finish-Registered r w

    pub register_all-Registered :
        (kv : Str × ℕ) (kvs : List (Str × ℕ))
        → All (λ x. x.1 < 2 ^ 64) (kv ∷ kvs)
        → 1 < tmp
        → Registered tmp first (register_all config geo tmp wal first (kv ∷ kvs) no_regions)
    unfolding register_all finish
    register_all-Registered kv kvs words room =
        after_configs (register_configs tmp wal geo (kv ∷ kvs) no_regions) (
          register_configs-Registers tmp wal range small geo sane (kv ∷ kvs) no_regions words
            (no_regions-IsRegistered tmp room))

-- The sizes of the configuration are of type uint64_t, and the temporary area fits the device.
pub record IsUsable (config : NvmeConfig) (geo : DeviceGeometry) : Type 0 where
  pub wal : config.max_wal_size < 2 ^ 64
  pub default : config.default_db_size < 2 ^ 64
  pub databases : All (λ x. x.1 < 2 ^ 64) config.db_configs
  pub temporary : config.max_temp_size / geo.lba_size ≤ geo.lba_count

pub data Fresh (config : NvmeConfig) (geo : DeviceGeometry) (first : Str)
    : Run Registration GlobalMetadata → Type 0 where
  too_many : {r : Registration} → Fresh config geo first (err max_databases r)
  too_large : {r : Registration} → Fresh config geo first (err insufficient_space r)
  laid_out :
      {g : GlobalMetadata} {r : Registration}
      → IsLaidOut g
      → g.tmp_start ≡ geo.lba_count - config.max_temp_size / geo.lba_size
      → (strncpy_path first ≡ first
          → (s : DatabaseRegion) × (find_region first g.databases ≡ some s))
      → Fresh config geo first (ok g r)

module _ (config : NvmeConfig) (geo : DeviceGeometry) (first : Str) where
  abbrev tmp : ℕ
  tmp = temp_start config geo

  abbrev metadata_of : Run Registration (Unit {0}) → Run Registration GlobalMetadata
  metadata_of m = and_then m (λ _ r.
      ok (record { tmp_start = tmp; active_databases = r.db_idx; databases = r.databases }) r)

  metadata_of-Fresh :
      (m : Run Registration (Unit {0}))
      → tmp ≡ geo.lba_count - config.max_temp_size / geo.lba_size
      → tmp ≤ 2 ^ 63
      → Registered tmp first m
      → Fresh config geo first (metadata_of m)
  metadata_of-Fresh m e range no_slot = too_many
  metadata_of-Fresh m e range no_space = too_large
  metadata_of-Fresh m e range (table w found) =
      laid_out
        (record { slots = w.slots; counted = sym w.counted; packed = w.packed; range = range }) e
        found

  -- No room behind the metadata block: the first registration fails.
  no_room :
      (wal : ℕ) (kv : Str × ℕ) (kvs : List (Str × ℕ))
      → tmp ≤ 1
      → kv.1 / geo.lba_size < 2 ^ 62
      → wal < 2 ^ 62
      → register_all config geo tmp wal first (kv ∷ kvs) no_regions
        ≡ err insufficient_space no_regions
  unfolding register_all register_configs
  no_room wal kv kvs h a b = rw (register_db_no_room tmp wal kv.0 (kv.1 / geo.lba_size) h a b)

  pub temp_start_exact :
      IsSane geo
      → config.max_temp_size / geo.lba_size ≤ geo.lba_count
      → (tmp ≡ geo.lba_count - config.max_temp_size / geo.lba_size) × (tmp ≤ 2 ^ 63)
  unfolding temp_start
  temp_start_exact sane h =
      let bound = lba_count_bound geo sane in
      let e = sub64_exact geo.lba_count (config.max_temp_size / geo.lba_size) h (omega arith) in
      (e, rw e (omega arith))

  -- With a configured database, a sane geometry and sizes that are words, with room on the device for
  -- the temporary area, InitializeMetadata throws one of its two errors or gives a table that is laid
  -- out: packed regions before the temporary area, which starts where the configuration says, and a
  -- count that is the number of active entries; the lookup of the database that is opened then finds
  -- a region, if its name is one that strncpy does not cut off.
  pub fresh_metadata-Fresh :
      (kv : Str × ℕ) (kvs : List (Str × ℕ))
      → config.db_configs ≡ kv ∷ kvs
      → IsSane geo
      → IsUsable config geo
      → Fresh config geo first (fresh_metadata config geo first)
  unfolding fresh_metadata
  fresh_metadata-Fresh kv kvs nonempty sane usable =
      let (exact, range) = temp_start_exact sane usable.temporary in
      let small = div-lt config.max_wal_size geo.lba_size usable.wal sane.block_size in
      let words = subst (All (λ x. x.1 < 2 ^ 64)) nonempty usable.databases in
      simp nonempty (elim (Bool-cases (ltb 1 tmp)) [
        | inl room ↦ metadata_of-Fresh _ exact range (
            register_all-Registered tmp _ range small first config geo sane usable.default kv kvs
              words (ground arith))
        | inr none_left ↦
            rw (no_room _ kv kvs (ground arith) (div-lt _ _ words.0 sane.block_size) small)
              too_large
      ])
