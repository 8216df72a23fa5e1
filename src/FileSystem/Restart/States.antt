-- ===== src/FileSystem/Restart/States.antt =====
-- The runtime states that are made from the locations that were stored.
use mathlib.Core.Option.{some-injective}
use nvmefs.Prelude.{
  ℕ, zero, suc, ◌≡◌, refl, sym, ◌∙◌, ap, subst, inl, inr, Bool, true, false, ◌&&◌, List, [], ◌∷◌,
  Option, none, some, if◌then◌else◌, get_elem?, Str, str_eq, str_eq_refl, ◌<◌, lookup, insert,
  lookup-insert, string_eq, arith, Bool-cases,
}
use nvmefs.FileSystem.Metadata.{sync_region, sync_locations, load_states}
use nvmefs.Metadata.Defs.{DatabaseRegion}
use nvmefs.Strategy.Temporary.{RuntimeState}

-- The number of active regions with a name.
abbrev pub count_named : Str → List DatabaseRegion → ℕ
count_named name [] = 0
count_named name (r ∷ rs) =
    if r.is_active && str_eq r.db_path name then suc (count_named name rs) else count_named name rs

abbrev pub stored_state : DatabaseRegion → RuntimeState
stored_state r = record { db_location = r.db_location; wal_location = r.wal_location }

load_states-other :
    (name : Str) (rs : List DatabaseRegion) (dbs : List (Str × RuntimeState))
    → count_named name rs ≡ 0
    → lookup name (load_states rs dbs) ≡ lookup name dbs
unfolding load_states
load_states-other name [] dbs h = refl
load_states-other name (r ∷ rs) dbs h = elim (Bool-cases r.is_active) [
  | inl active ↦ elim (Bool-cases (str_eq r.db_path name)) [
    | inl same ↦ absurd (ground arith)
    | inr other ↦ rw active (
        load_states-other name rs (insert r.db_path (stored_state r) dbs) (ground arith)
        ∙ lookup-insert r.db_path name (stored_state r) dbs
        ∙ rw other refl)
  ]
  | inr vacant ↦ rw vacant (load_states-other name rs dbs (ground arith))
]

load_states-first :
    (r : DatabaseRegion) (rs : List DatabaseRegion) (dbs : List (Str × RuntimeState))
    → r.is_active ≡ true
    → count_named r.db_path (r ∷ rs) ≡ 1
    → lookup r.db_path (load_states (r ∷ rs) dbs) ≡ some (stored_state r)
unfolding load_states
load_states-first r rs dbs a h =
    let same = str_eq_refl r.db_path in
    rw a (
      load_states-other r.db_path rs (insert r.db_path (stored_state r) dbs) (ground arith)
      ∙ lookup-insert r.db_path r.db_path (stored_state r) dbs
      ∙ rw same refl)

count_found :
    (rs : List DatabaseRegion) (i : ℕ) (r : DatabaseRegion)
    → get_elem? rs i ≡ some r
    → r.is_active ≡ true
    → 0 < count_named r.db_path rs
count_found [] i r e a = cc
count_found (q ∷ rs) zero r e a =
    subst (λ x. x.is_active ≡ true → 0 < count_named x.db_path (q ∷ rs)) (some-injective q r e)
      (λ b. ground (arith, str_eq_refl q.db_path)) a
count_found (q ∷ rs) (suc i) r e a = ground (arith, count_found rs i r)

pub load_states-named :
    (rs : List DatabaseRegion) (dbs : List (Str × RuntimeState)) (i : ℕ) (r : DatabaseRegion)
    → get_elem? rs i ≡ some r
    → r.is_active ≡ true
    → count_named r.db_path rs ≡ 1
    → lookup r.db_path (load_states rs dbs) ≡ some (stored_state r)
unfolding load_states
load_states-named [] dbs i r e a h = cc
load_states-named (q ∷ rs) dbs zero r e a h =
    subst
      (λ x.
        x.is_active ≡ true
        → count_named x.db_path (q ∷ rs) ≡ 1
        → lookup x.db_path (load_states (q ∷ rs) dbs) ≡ some (stored_state x))
      (some-injective q r e) (load_states-first q rs dbs) a h
load_states-named (q ∷ rs) dbs (suc i) r e a h =
    load_states-named rs _ i r e a (ground (arith, count_found rs i r))

-- WriteMetadata on one region, by its two tests.
abbrev synced : Bool → Option RuntimeState → DatabaseRegion → DatabaseRegion
synced active state r =
    if active
    then elim state [
      | none ↦ r
      | some st ↦ record r { db_location = st.db_location; wal_location = st.wal_location }
    ]
    else r

synced-same :
    (active : Bool) (state : Option RuntimeState) (r : DatabaseRegion)
    → ((synced active state r).is_active ≡ r.is_active)
      × ((synced active state r).db_path ≡ r.db_path)
synced-same true none r = (refl, refl)
synced-same true (some st) r = (refl, refl)
synced-same false state r = (refl, refl)

sync_region-same :
    (dbs : List (Str × RuntimeState)) (r : DatabaseRegion)
    → ((sync_region dbs r).is_active ≡ r.is_active) × ((sync_region dbs r).db_path ≡ r.db_path)
unfolding sync_region
sync_region-same dbs r = synced-same r.is_active (lookup r.db_path dbs) r

sync_region-open :
    (dbs : List (Str × RuntimeState)) (r : DatabaseRegion) (st : RuntimeState)
    → r.is_active ≡ true
    → lookup r.db_path dbs ≡ some st
    → stored_state (sync_region dbs r) ≡ st
unfolding sync_region
sync_region-open dbs r st a e =
    ap (λ b. stored_state (synced b (lookup r.db_path dbs) r)) a
    ∙ ap (λ o. stored_state (synced true o r)) e

count_named-sync_locations :
    (name : Str) (dbs : List (Str × RuntimeState)) (rs : List DatabaseRegion)
    → count_named name (sync_locations dbs rs) ≡ count_named name rs
unfolding sync_locations
count_named-sync_locations name dbs [] = refl
count_named-sync_locations name dbs (r ∷ rs) =
    let (active, path) = sync_region-same dbs r in
    let rest = count_named-sync_locations name dbs rs in rw (active, path, rest) refl

get_elem?-sync_locations :
    (dbs : List (Str × RuntimeState)) (rs : List DatabaseRegion) (i : ℕ) (r : DatabaseRegion)
    → get_elem? rs i ≡ some r
    → get_elem? (sync_locations dbs rs) i ≡ some (sync_region dbs r)
unfolding sync_locations
get_elem?-sync_locations dbs [] i r e = cc
get_elem?-sync_locations dbs (q ∷ rs) zero r e =
    ap (λ x. some (sync_region dbs x)) (some-injective q r e)
get_elem?-sync_locations dbs (q ∷ rs) (suc i) r e = get_elem?-sync_locations dbs rs i r e

-- The states that are made from the stored regions are the states of the open databases.
pub load_states-sync_locations :
    (dbs : List (Str × RuntimeState)) (rs : List DatabaseRegion) (i : ℕ) (r : DatabaseRegion)
    (st : RuntimeState)
    → get_elem? rs i ≡ some r
    → r.is_active ≡ true
    → count_named r.db_path rs ≡ 1
    → lookup r.db_path dbs ≡ some st
    → lookup r.db_path (load_states (sync_locations dbs rs) []) ≡ some st
load_states-sync_locations dbs rs i r st e a h f =
    let (active, path) = sync_region-same dbs r in
    let once : count_named (sync_region dbs r).db_path (sync_locations dbs rs) ≡ 1 =
      ap (λ p. count_named p (sync_locations dbs rs)) path
      ∙ count_named-sync_locations r.db_path dbs rs
      ∙ h in
    ap (λ p. lookup p (load_states (sync_locations dbs rs) [])) (sym path)
    ∙ load_states-named (sync_locations dbs rs) [] i (sync_region dbs r)
        (get_elem?-sync_locations dbs rs i r e) (active ∙ a) once
    ∙ ap some (sync_region-open dbs r st a f)
