-- ===== src/Metadata/Initialize.antt =====
-- InitializeMetadata lays out a fresh device, or throws.
use nvmefs.Prelude.{
  ℕ, zero, suc, ◌+◌, ◌/◌, ◌<◌, ◌≤◌, ◌^◌, ◌≡◌, refl, inl, inr, true, List, [], ◌∷◌, some, arith,
  length, All, add64, add64_exact, leb, Str, set, sym, subst, get_elem?, str_eq, ◌&&◌, and_then,
  Bool-cases, ok, err, max_databases, insufficient_space, Run, div-lt,
}
use nvmefs.Device.{DeviceGeometry, IsSane}
use nvmefs.Metadata.Defs.{
  DatabaseRegion, Registration, place, highest_lba, claim_slot, get_region, find_region,
  register_db, register_configs, first_allocated, max_nvme_databases,
}
use nvmefs.Metadata.Packed.{Packed, IsVacant, count_active, highest_lba-Packed}
use nvmefs.Metadata.Allocate.{Claims, claimed, claim_slot-Claims}

count_active-vacant : (rs : List DatabaseRegion) → All IsVacant rs → count_active rs ≡ 0
count_active-vacant [] h = refl
count_active-vacant (r ∷ rs) h = ground (arith, count_active-vacant rs h.1)

-- In a packed table the first vacant entry has the count of the active ones as its index.
claim_slot-set :
    (f : DatabaseRegion → DatabaseRegion) (lo hi i : ℕ) (rs : List DatabaseRegion)
    → Packed lo hi rs
    → count_active rs ≡ i
    → i < length rs
    → claim_slot f rs ≡ some (set rs i (f (get_region rs i)), f (get_region rs i))
unfolding claim_slot get_region
claim_slot-set f lo hi i [] h e k = absurd (omega arith)
claim_slot-set f lo hi zero (r ∷ rs) (inl h) e k = absurd (ground arith)
claim_slot-set f lo hi (suc i) (r ∷ rs) (inl h) e k =
    ground (arith, claim_slot-set f r.wal_end hi i rs h.4)
claim_slot-set f lo hi zero (r ∷ rs) (inr h) e k = ground arith
claim_slot-set f lo hi (suc i) (r ∷ rs) (inr h) e k =
    absurd (ground (arith, count_active-vacant rs h.2))

-- The captured variables between two registrations.
pub record IsRegistered (tmp : ℕ) (r : Registration) : Type 0 where
  pub slots : length r.databases ≡ max_nvme_databases
  pub counted : count_active r.databases ≡ r.db_idx
  pub packed : Packed 1 tmp r.databases
  pub top : highest_lba 1 r.databases ≡ r.current_lba

pub data Registers (tmp : ℕ) : Run Registration (Unit {0}) → Type 0 where
  refused_count : {r : Registration} → Registers tmp (err max_databases r)
  refused_space : {r : Registration} → Registers tmp (err insufficient_space r)
  registered : {r : Registration} → IsRegistered tmp r → Registers tmp (ok tt r)

module _ (tmp wal : ℕ) (name : Str) (lbas : ℕ) where
  IsRegistered-Claims :
      (r : Registration) (databases : List DatabaseRegion) (new : DatabaseRegion)
      → IsRegistered tmp r
      → Claims 1 tmp r.current_lba lbas wal r.databases (some (databases, new))
      → IsRegistered tmp
          (record { databases = databases; current_lba = new.wal_end; db_idx = r.db_idx + 1 })
  IsRegistered-Claims r databases new v (claimed p l c s w e t) = record {
    slots = omega (arith, v.slots);
    counted = omega (arith, v.counted);
    packed = p;
    top = t;
  }

  abbrev placed : Registration → DatabaseRegion
  placed r = place (get_region r.databases r.db_idx) name r.current_lba lbas wal

  placed-Claims :
      (r : Registration)
      → IsRegistered tmp r
      → tmp ≤ 2 ^ 63
      → r.db_idx < max_nvme_databases
      → r.current_lba + lbas + wal < tmp
      → Claims 1 tmp r.current_lba lbas wal r.databases
          (some (set r.databases r.db_idx (placed r), placed r))
  placed-Claims r v range few fits =
      subst (Claims 1 tmp r.current_lba lbas wal r.databases)
        (claim_slot-set (λ slot. place slot name r.current_lba lbas wal) 1 tmp r.db_idx r.databases
          v.packed v.counted (omega (arith, v.slots)))
        (claim_slot-Claims name lbas wal tmp 1 r.current_lba r.databases v.packed (sym v.top) fits
          (omega arith))

  pub register_db-Registers :
      (r : Registration)
      → IsRegistered tmp r
      → tmp ≤ 2 ^ 63
      → lbas < 2 ^ 62
      → wal < 2 ^ 62
      → Registers tmp (register_db tmp wal name lbas r)
  unfolding register_db
  register_db-Registers r v range a b =
      let (above, below) = highest_lba-Packed 1 tmp r.databases v.packed in
      let first : add64 r.current_lba lbas ≡ r.current_lba + lbas =
        add64_exact _ _ (omega (arith, v.top)) in
      let both : add64 (r.current_lba + lbas) wal ≡ r.current_lba + lbas + wal =
        add64_exact _ _ (omega (arith, v.top)) in
      elim (Bool-cases (leb max_nvme_databases r.db_idx)) [
        | inl many ↦ rw many refused_count
        | inr few ↦
            rw (few, first, both)
              (elim (Bool-cases (leb tmp (r.current_lba + lbas + wal))) [
                | inl large ↦ rw large refused_space
                | inr fits ↦ rw fits (
                    registered (
                      IsRegistered-Claims r _ _ v
                        (placed-Claims r v range (ground arith) (ground arith))))
              ])
      ]

module _ (tmp wal : ℕ) (range : tmp ≤ 2 ^ 63) (small : wal < 2 ^ 62) (geo : DeviceGeometry)
    (sane : IsSane geo) where
  pub register_configs-Registers :
      (kvs : List (Str × ℕ)) (r : Registration)
      → All (λ kv. kv.1 < 2 ^ 64) kvs
      → IsRegistered tmp r
      → Registers tmp (register_configs tmp wal geo kvs r)
  unfolding register_configs
  register_configs-Registers [] r words v = registered v
  register_configs-Registers ((name, bytes) ∷ kvs) r words v =
      next (register_db tmp wal name (bytes / geo.lba_size) r)
        (register_db-Registers tmp wal name (bytes / geo.lba_size) r v range
          (div-lt _ _ words.0 sane.block_size) small)
        (λ s w. register_configs-Registers kvs s words.1 w)
    where
      next :
          (m : Run Registration (Unit {0}))
          → Registers tmp m
          → ((s : Registration)
              → IsRegistered tmp s
              → Registers tmp (register_configs tmp wal geo kvs s))
          → Registers tmp (and_then m (λ _. register_configs tmp wal geo kvs))
      next m refused_count k = refused_count
      next m refused_space k = refused_space
      next m (registered {r = s} w) k = k s w

-- The lookup of a path succeeds at any active entry with the path, perhaps by an earlier one.
pub find_region_at :
    (name : Str) (i : ℕ) (rs : List DatabaseRegion) {r : DatabaseRegion}
    → get_elem? rs i ≡ some r
    → r.is_active ≡ true
    → str_eq r.db_path name ≡ true
    → (s : DatabaseRegion) × (find_region name rs ≡ some s)
unfolding find_region
find_region_at name i [] e a p = cc
find_region_at name zero (x ∷ xs) e a p = (x, ground arith)
find_region_at name (suc i) (x ∷ xs) e a p =
    let (s, f) = find_region_at name i xs e a p in
    elim (Bool-cases (x.is_active && str_eq x.db_path name)) [
      | inl hit ↦ (x, rw hit)
      | inr miss ↦ (s, rw miss f)
    ]

pub first_allocated-find_region :
    (name : Str) (lo hi n : ℕ) (rs : List DatabaseRegion)
    → Packed lo hi rs
    → count_active rs ≡ n
    → first_allocated name n rs ≡ true
    → (s : DatabaseRegion) × (find_region name rs ≡ some s)
unfolding first_allocated find_region
first_allocated-find_region name lo hi zero rs h e f = absurd (ground arith)
first_allocated-find_region name lo hi (suc n) [] h e f = absurd (ground arith)
first_allocated-find_region name lo hi (suc n) (r ∷ rs) (inl h) e f =
    elim (Bool-cases (str_eq r.db_path name)) [
      | inl hit ↦ (r, ground arith)
      | inr miss ↦
          let (s, g) =
            first_allocated-find_region name r.wal_end hi n rs h.4 (ground arith) (ground arith) in
          (s, ground arith)
    ]
first_allocated-find_region name lo hi (suc n) (r ∷ rs) (inr h) e f =
    absurd (ground (arith, count_active-vacant rs h.2))
