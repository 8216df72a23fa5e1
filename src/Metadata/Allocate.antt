-- ===== src/Metadata/Allocate.antt =====
-- AllocateNewDatabaseRegion keeps the layout, on every branch.
use nvmefs.Prelude.{
  ℕ, suc, ◌+◌, ◌/◌, ◌<◌, ◌≤◌, ◌^◌, ◌≡◌, refl, inl, inr, true, List, [], ◌∷◌, Option, none, some,
  arith, length, All, add64, add64_exact, leb, leb→le, Str, ◌∙◌, Bool-cases, ok, err, Cmd, put,
  pure, ◌>>◌, div-lt, max_databases, insufficient_space, Run,
}
use nvmefs.Device.{DeviceGeometry, IsSane}
use nvmefs.Metadata.Defs.{
  DatabaseRegion, GlobalMetadata, NvmeConfig, place, highest_lba, claim_slot, requested_bytes,
  allocate_region, max_nvme_databases,
}
use nvmefs.Metadata.Packed.{
  Packed, IsVacant, count_active, highest_lba-Packed, highest_lba_active, highest_lba_inactive,
  highest_lba-vacant, place_bounds,
}

abbrev pub Slots : Type 0
Slots = List DatabaseRegion × DatabaseRegion

-- What claiming a slot of the table `rs`, packed between `lo` and `hi`, gives: no slot only if all are
-- active, and else a table with one region more, packed too, where the new one stands behind the
-- others.
pub data Claims (lo hi high lbas wal : ℕ) (rs : List DatabaseRegion) : Option Slots → Type 0 where
  full : count_active rs ≡ length rs → Claims lo hi high lbas wal rs none
  claimed :
      {rs' : List DatabaseRegion} {new : DatabaseRegion}
      → Packed lo hi rs'
      → length rs' ≡ length rs
      → count_active rs' ≡ suc (count_active rs)
      → new.db_start ≡ high
      → new.wal_start ≡ high + lbas
      → new.wal_end ≡ high + lbas + wal
      → highest_lba lo rs' ≡ new.wal_end
      → Claims lo hi high lbas wal rs (some (rs', new))

pub vacant-Packed :
    (lo hi : ℕ) (rs : List DatabaseRegion) → lo < hi → All IsVacant rs → Packed lo hi rs
vacant-Packed lo hi [] h v = h
vacant-Packed lo hi (r ∷ rs) h v = inr (v.0, h, v.1)

module _ (name : Str) (lbas wal hi : ℕ) where
  abbrev pub claim : ℕ → List DatabaseRegion → Option Slots
  claim high = claim_slot (λ slot. place slot name high lbas wal)

  Claims-cons :
      (lo high : ℕ) (r : DatabaseRegion) (rs : List DatabaseRegion) (o : Option Slots)
      → (r.is_active ≡ true)
        × (lo ≤ r.db_start)
        × (r.db_start ≤ r.wal_start)
        × (r.wal_start ≤ r.wal_end)
        × Packed r.wal_end hi rs
      → Claims r.wal_end hi high lbas wal rs o
      → Claims lo hi high lbas wal
          (r ∷ rs)
          (elim o [ none ↦ none | some (rs', new) ↦ some (r ∷ rs', new) ])
  Claims-cons lo high r rs o h (full e) = full (ground arith)
  Claims-cons lo high r rs o h (claimed {rs'} {new} p l c s w e t) =
      claimed (inl (h.0, h.1, h.2, h.3, p)) (omega arith) (ground arith) s w e
        (highest_lba_active lo r rs' h.0 (omega arith) ∙ t)

  pub claim_slot-Claims :
      (lo high : ℕ) (rs : List DatabaseRegion)
      → Packed lo hi rs
      → high ≡ highest_lba lo rs
      → high + lbas + wal < hi
      → hi ≤ 2 ^ 64
      → Claims lo hi high lbas wal rs (claim high rs)
  unfolding claim_slot place
  claim_slot-Claims lo high [] h e f k = full refl
  claim_slot-Claims lo high (r ∷ rs) (inl h) e f k = simp h.0 (
      Claims-cons lo high r rs (claim high rs) h (
        claim_slot-Claims r.wal_end high rs h.4 (ground (arith, highest_lba_active lo r rs h.0)) f
          k))
  claim_slot-Claims lo high (r ∷ rs) (inr h) e f k =
      let (w, t) = place_bounds r name high lbas wal hi f k in
      let bottom : high ≡ lo = e ∙ highest_lba_inactive lo r rs h.0 h.2 in
      simp h.0 (
        claimed
          (inl (
            place_active r high,
            omega arith,
            omega arith,
            omega arith,
            vacant-Packed _ hi rs (omega arith) h.2,
          ))
          refl (ground arith) refl w t
          (highest_lba_active lo (place r name high lbas wal) rs refl (omega arith)
            ∙ highest_lba-vacant _ rs h.2))
    where
      place_active :
          (slot : DatabaseRegion) (start : ℕ) → (place slot name start lbas wal).is_active ≡ true
      place_active slot start = refl

-- The whole table: sixteen entries, counted and packed between the metadata block and `tmp_start`.
pub record IsLaidOut (g : GlobalMetadata) : Type 0 where
  pub slots : length g.databases ≡ max_nvme_databases
  pub counted : g.active_databases ≡ count_active g.databases
  pub packed : Packed 1 g.tmp_start g.databases
  pub range : g.tmp_start ≤ 2 ^ 63

-- The sizes are of type uint64_t.
pub record AreWords (config : NvmeConfig) (name : Str) : Type 0 where
  pub wal : config.max_wal_size < 2 ^ 64
  pub requested : requested_bytes config name < 2 ^ 64

-- The region that the run claimed, and the table that it left.
pub record Allocated (config : NvmeConfig) (geo : DeviceGeometry) (name : Str)
    (g g' : GlobalMetadata) (region : DatabaseRegion) : Type 0 where
  pub laid_out : IsLaidOut g'
  pub tmp_start : g'.tmp_start ≡ g.tmp_start
  pub one_more : g'.active_databases ≡ g.active_databases + 1
  pub start : region.db_start ≡ highest_lba 1 g.databases
  pub data_blocks : region.wal_start ≡ region.db_start + requested_bytes config name / geo.lba_size
  pub log_blocks : region.wal_end ≡ region.wal_start + config.max_wal_size / geo.lba_size
  pub fits : region.wal_end < g.tmp_start

pub data Outcome (config : NvmeConfig) (geo : DeviceGeometry) (name : Str) (g : GlobalMetadata)
    : Run GlobalMetadata (Option DatabaseRegion) → Type 0 where
  too_many :
      max_nvme_databases ≤ g.active_databases → Outcome config geo name g (err max_databases g)
  too_large :
      g.active_databases < max_nvme_databases
      → g.tmp_start
        ≤ highest_lba 1 g.databases
          + requested_bytes config name / geo.lba_size
          + config.max_wal_size / geo.lba_size
      → Outcome config geo name g (err insufficient_space g)
  allocated :
      {g' : GlobalMetadata} {region : DatabaseRegion}
      → Allocated config geo name g g' region
      → Outcome config geo name g (ok (some region) g')

module _ (config : NvmeConfig) (geo : DeviceGeometry) (name : Str) (g : GlobalMetadata) where
  abbrev lbas : ℕ
  lbas = requested_bytes config name / geo.lba_size

  abbrev wal_lbas : ℕ
  wal_lbas = config.max_wal_size / geo.lba_size

  abbrev high : ℕ
  high = highest_lba 1 g.databases

  -- The last part of the function, when both guards passed.
  abbrev install : Option Slots → Run GlobalMetadata (Option DatabaseRegion)
  install o =
      (elim o as (λ _. Cmd GlobalMetadata (Option DatabaseRegion)) [
        | none ↦ pure none
        | some (databases, region) ↦
            put (record g { active_databases = g.active_databases + 1; databases = databases })
            >> pure (some region)
      ])
        g

  install-Outcome :
      (o : Option Slots)
      → IsLaidOut g
      → g.active_databases < max_nvme_databases
      → high + lbas + wal_lbas < g.tmp_start
      → Claims 1 g.tmp_start high lbas wal_lbas g.databases o
      → Outcome config geo name g (install o)
  install-Outcome o v few fits (full e) = absurd (omega (arith, v.slots, v.counted))
  install-Outcome o v few fits (claimed p l c s w e t) = allocated (record {
    laid_out = record {
      slots = omega (arith, v.slots);
      counted = omega (arith, v.counted);
      packed = p;
      range = v.range;
    };
    tmp_start = refl;
    one_more = refl;
    start = s;
    data_blocks = omega arith;
    log_blocks = omega arith;
    fits = omega arith;
  })

  -- On a table that is laid out, a sane geometry and sizes that are words,
  -- AllocateNewDatabaseRegion throws if the table is full, throws if the blocks asked for do not
  -- leave one before the temporary area, and else returns a region of exactly the blocks asked for,
  -- behind all active regions and before the temporary area, with a table that is laid out again and
  -- has one active region more. It never returns without a region.
  pub allocate_region-Outcome :
      IsSane geo
      → AreWords config name
      → IsLaidOut g
      → Outcome config geo name g (allocate_region config geo name g)
  unfolding allocate_region
  allocate_region-Outcome sane words v =
      let small : lbas < 2 ^ 62 = div-lt _ _ words.requested sane.block_size in
      let small_wal : wal_lbas < 2 ^ 62 = div-lt _ _ words.wal sane.block_size in
      let (above, below) = highest_lba-Packed 1 g.tmp_start g.databases v.packed in
      let first : add64 high lbas ≡ high + lbas = add64_exact _ _ (omega (arith, v.range)) in
      let both : add64 (high + lbas) wal_lbas ≡ high + lbas + wal_lbas =
        add64_exact _ _ (omega (arith, v.range)) in
      elim (Bool-cases (leb max_nvme_databases g.active_databases)) [
        | inl many ↦ rw many (too_many (leb→le _ _ many))
        | inr few ↦
            rw (few, first, both)
              (elim (Bool-cases (leb g.tmp_start (high + lbas + wal_lbas))) [
                | inl large ↦ rw large (too_large (ground arith) (leb→le _ _ large))
                | inr fits ↦ rw fits (
                    install-Outcome _ v (ground arith) (ground arith) (
                      claim_slot-Claims name lbas wal_lbas g.tmp_start 1 high g.databases v.packed
                        refl (ground arith) (omega (arith, v.range))))
              ])
      ]
