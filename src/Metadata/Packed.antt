-- ===== src/Metadata/Packed.antt =====
-- The shape of the region table: the active regions stand first, in the order of their blocks, and
-- lie between the metadata block and the temporary area.
use nvmefs.Prelude.{
  ℕ, zero, suc, ◌+◌, ◌<◌, ◌≤◌, ◌^◌, ◌≡◌, refl, ◌≢◌, ◌⊎◌, inl, inr, true, false, List, [], ◌∷◌, some,
  arith, get_elem?, All, add64, Str, ap,
}
use nvmefs.Metadata.Defs.{DatabaseRegion, place, highest_lba}

abbrev pub IsVacant : DatabaseRegion → Type 0
IsVacant r = r.is_active ≡ false

-- The regions from block `lo` on: each starts at or behind the end of the one before it and ends
-- before block `hi`; behind the first inactive entry there are inactive entries only.
abbrev pub Packed : ℕ → ℕ → List DatabaseRegion → Type 0
Packed lo hi [] = lo < hi
Packed lo hi (r ∷ rs) =
    ((r.is_active ≡ true)
      × (lo ≤ r.db_start)
      × (r.db_start ≤ r.wal_start)
      × (r.wal_start ≤ r.wal_end)
      × Packed r.wal_end hi rs)
    ⊎ ((r.is_active ≡ false) × (lo < hi) × All IsVacant rs)

abbrev pub count_active : List DatabaseRegion → ℕ
count_active [] = 0
count_active (r ∷ rs) = elim r.is_active [ true ↦ suc (count_active rs) | false ↦ count_active rs ]

-- Two regions share no block.
abbrev pub Disjoint : DatabaseRegion → DatabaseRegion → Type 0
Disjoint r s = (r.wal_end ≤ s.db_start) ⊎ (s.wal_end ≤ r.db_start)

abbrev pub IsWithin : ℕ → ℕ → DatabaseRegion → Type 0
IsWithin lo hi r =
    (lo ≤ r.db_start) × (r.db_start ≤ r.wal_start) × (r.wal_start ≤ r.wal_end) × (r.wal_end < hi)

pub Packed-lt : (lo hi : ℕ) (rs : List DatabaseRegion) → Packed lo hi rs → lo < hi
Packed-lt lo hi [] h = h
Packed-lt lo hi (r ∷ rs) (inl h) = omega (arith, Packed-lt r.wal_end hi rs h.4)
Packed-lt lo hi (r ∷ rs) (inr h) = h.1

vacant-get_elem? :
    (rs : List DatabaseRegion) (i : ℕ) {r : DatabaseRegion}
    → All IsVacant rs
    → get_elem? rs i ≡ some r
    → r.is_active ≡ true
    → ⊥
vacant-get_elem? [] i h e a = cc
vacant-get_elem? (x ∷ xs) zero h e a = ground arith
vacant-get_elem? (x ∷ xs) (suc i) h e a = vacant-get_elem? xs i h.1 e a

pub Packed-IsWithin :
    (lo hi : ℕ) (rs : List DatabaseRegion) (i : ℕ) {r : DatabaseRegion}
    → Packed lo hi rs
    → get_elem? rs i ≡ some r
    → r.is_active ≡ true
    → IsWithin lo hi r
Packed-IsWithin lo hi [] i h e a = cc
Packed-IsWithin lo hi (x ∷ xs) zero (inl h) e a = ground (arith, Packed-lt x.wal_end hi xs h.4)
Packed-IsWithin lo hi (x ∷ xs) zero (inr h) e a = ground arith
Packed-IsWithin lo hi (x ∷ xs) (suc i) (inl h) e a =
    omega (arith, Packed-IsWithin x.wal_end hi xs i h.4 e a)
Packed-IsWithin lo hi (x ∷ xs) (suc i) (inr h) e a = absurd (vacant-get_elem? xs i h.2 e a)

pub Packed-Disjoint :
    (lo hi : ℕ) (rs : List DatabaseRegion) (i j : ℕ) {r s : DatabaseRegion}
    → Packed lo hi rs
    → i ≢ j
    → get_elem? rs i ≡ some r
    → get_elem? rs j ≡ some s
    → r.is_active ≡ true
    → s.is_active ≡ true
    → Disjoint r s
Packed-Disjoint lo hi [] i j h ne e f a b = cc
Packed-Disjoint lo hi (x ∷ xs) zero zero h ne e f a b = absurd (ne refl)
Packed-Disjoint lo hi (x ∷ xs) zero (suc j) (inl h) ne e f a b =
    ground (arith, Packed-IsWithin x.wal_end hi xs j h.4 f b)
Packed-Disjoint lo hi (x ∷ xs) zero (suc j) (inr h) ne e f a b =
    absurd (vacant-get_elem? xs j h.2 f b)
Packed-Disjoint lo hi (x ∷ xs) (suc i) zero (inl h) ne e f a b =
    ground (arith, Packed-IsWithin x.wal_end hi xs i h.4 e a)
Packed-Disjoint lo hi (x ∷ xs) (suc i) zero (inr h) ne e f a b =
    absurd (vacant-get_elem? xs i h.2 e a)
Packed-Disjoint lo hi (x ∷ xs) (suc i) (suc j) (inl h) ne e f a b =
    Packed-Disjoint x.wal_end hi xs i j h.4 (λ q. ne (ap suc q)) e f a b
Packed-Disjoint lo hi (x ∷ xs) (suc i) (suc j) (inr h) ne e f a b =
    absurd (vacant-get_elem? xs i h.2 e a)

pub highest_lba-vacant :
    (lo : ℕ) (rs : List DatabaseRegion) → All IsVacant rs → highest_lba lo rs ≡ lo
unfolding highest_lba
highest_lba-vacant lo [] h = refl
highest_lba-vacant lo (r ∷ rs) h = ground (arith, highest_lba-vacant lo rs h.1)

pub highest_lba_active :
    (lo : ℕ) (r : DatabaseRegion) (rs : List DatabaseRegion)
    → r.is_active ≡ true
    → lo ≤ r.wal_end
    → highest_lba lo (r ∷ rs) ≡ highest_lba r.wal_end rs
unfolding highest_lba
highest_lba_active lo r rs a h = ground arith

pub highest_lba_inactive :
    (lo : ℕ) (r : DatabaseRegion) (rs : List DatabaseRegion)
    → r.is_active ≡ false
    → All IsVacant rs
    → highest_lba lo (r ∷ rs) ≡ lo
unfolding highest_lba
highest_lba_inactive lo r rs a h = ground (arith, highest_lba-vacant lo rs h)

-- Between the ends of a packed table.
pub highest_lba-Packed :
    (lo hi : ℕ) (rs : List DatabaseRegion)
    → Packed lo hi rs
    → (lo ≤ highest_lba lo rs) × (highest_lba lo rs < hi)
unfolding highest_lba
highest_lba-Packed lo hi [] h = omega arith
highest_lba-Packed lo hi (r ∷ rs) (inl h) =
    ground (arith, highest_lba_active lo r rs h.0, highest_lba-Packed r.wal_end hi rs h.4)
highest_lba-Packed lo hi (r ∷ rs) (inr h) = ground (arith, highest_lba_inactive lo r rs h.0 h.2)

-- The region that `place` writes, when nothing wraps.
pub place_bounds :
    (slot : DatabaseRegion) (name : Str) (start lbas wal hi : ℕ)
    → start + lbas + wal < hi
    → hi ≤ 2 ^ 64
    → ((place slot name start lbas wal).wal_start ≡ start + lbas)
      × ((place slot name start lbas wal).wal_end ≡ start + lbas + wal)
unfolding place add64
place_bounds slot name start lbas wal hi h k = omega arith
