-- ===== src/Device/Handles.antt =====
-- The placement handles: every reclaim unit handle that is configured, and 0, has a number of its own.
use nvmefs.Prelude.{
  ℕ, suc, ◌<◌, ◌≡◌, inl, inr, refl, true, List, [], ◌∷◌, some, ◌==◌, ==_iff, ==_refl, ltb, arith,
  Str, lookup, insert_sorted, lookup-insert_sorted, nat_eq, Option-cases, Bool-cases, ◌∙◌, All,
}
use nvmefs.Device.Placement.{
  insert_ruh, sorted_ruhs, has_zero, number_handles, initialize_placement_handles,
}

-- The numbers in a map lie below `count`, and different handles have different ones.
record AreNumbered (count : ℕ) (phids : List (ℕ × ℕ)) : Type 0 where
  below : (h p : ℕ) → lookup h phids ≡ some p → p < count
  apart : (h k p : ℕ) → lookup h phids ≡ some p → lookup k phids ≡ some p → h ≡ k

one_more :
    (count h : ℕ) (phids : List (ℕ × ℕ))
    → AreNumbered count phids
    → AreNumbered (suc count) (insert_sorted ltb h count phids)
one_more count h phids v = record {
  below =
      λ k p e. ground (arith, lookup-insert_sorted ltb h k count phids, v.below k p, ==_iff h k);
  apart = λ k l p e f. ground (
    arith,
    lookup-insert_sorted ltb h k count phids,
    lookup-insert_sorted ltb h l count phids,
    v.below k p,
    v.below l p,
    v.apart k l p,
    ==_iff h k,
    ==_iff h l,
  );
}

not_fewer :
    (count : ℕ) (phids : List (ℕ × ℕ)) → AreNumbered count phids → AreNumbered (suc count) phids
not_fewer count phids v = record { below = λ k p e. omega (arith, v.below k p e); apart = v.apart }

-- A handle has a number in the map.
abbrev pub IsPlaced : ℕ → List (ℕ × ℕ) → Type 0
IsPlaced h phids = (p : ℕ) × (lookup h phids ≡ some p)

-- The numbers that a run leaves: all apart, one for each handle of the list or of the map before.
record Numbers (hs : List ℕ) (before phids : List (ℕ × ℕ)) : Type 0 where
  apart : (h k p : ℕ) → lookup h phids ≡ some p → lookup k phids ≡ some p → h ≡ k
  kept : (h p : ℕ) → lookup h before ≡ some p → lookup h phids ≡ some p
  placed : All (λ h. IsPlaced h phids) hs

number_handles-Numbers :
    (count : ℕ) (hs : List ℕ) (phids : List (ℕ × ℕ))
    → AreNumbered count phids
    → Numbers hs phids (number_handles count hs phids)
unfolding number_handles
number_handles-Numbers count [] phids v = record { apart = v.apart; kept = λ h p e. e; placed = tt }
number_handles-Numbers count (h ∷ hs) phids v = elim (Option-cases (lookup h phids)) [
  | inr (p, e) ↦
      let w = number_handles-Numbers (suc count) hs phids (not_fewer count phids v) in
      rw (e, number_handles)
        (record { apart = w.apart; kept = w.kept; placed = ((p, w.kept h p e), w.placed) })
  | inl e ↦
      let w =
        number_handles-Numbers (suc count) hs (insert_sorted ltb h count phids)
          (one_more count h phids v) in
      rw (e, number_handles)
        (record {
          apart = w.apart;
          kept = λ k p f.
              w.kept k p (ground (arith, lookup-insert_sorted ltb h k count phids, ==_iff h k));
          placed = (
            (
              count,
              w.kept h count (lookup-insert_sorted ltb h h count phids ∙ rw (==_refl h) refl),
            ),
            w.placed,
          );
        })
]

module _ (P : ℕ → Type 0) where
  insert_ruh-All : (h : ℕ) (ks : List ℕ) → All P (insert_ruh h ks) → P h × All P ks
  unfolding insert_ruh
  insert_ruh-All h [] a = a
  insert_ruh-All h (k ∷ ks) a = elim (Bool-cases (ltb h k)) [
    | inl less ↦ (rw less at a)
    | inr more ↦ elim (Bool-cases (h == k)) [
      | inl same ↦
          let b : All P (k ∷ ks) = rw (more, same) at a in (rw ((==_iff h k).0 same) b.0, b)
      | inr other ↦
          let b : All P (k ∷ insert_ruh h ks) = rw (more, other) at a in
          let (p, q) = insert_ruh-All h ks b.1 in (p, (b.0, q))
    ]
  ]

  sorted_ruhs-All :
      (ruhs : List (Str × ℕ)) (set : List ℕ)
      → All P (sorted_ruhs ruhs set)
      → All (λ x. P x.1) ruhs × All P set
  unfolding sorted_ruhs
  sorted_ruhs-All [] set a = (tt, a)
  sorted_ruhs-All ((name, h) ∷ ruhs) set a =
      let (rest, more) = sorted_ruhs-All ruhs (insert_ruh h set) a in
      let (p, q) = insert_ruh-All h set more in ((p, rest), q)

  has_zero-All : (set : List ℕ) → has_zero set ≡ true → All P set → P 0
  unfolding has_zero
  has_zero-All [] h a = cc
  has_zero-All (k ∷ ks) h a = elim (Bool-cases (k == 0)) [
    | inl same ↦ rw ((==_iff k 0).0 same) at a.0
    | inr other ↦ has_zero-All ks (rw other at h) a.1
  ]

nothing : AreNumbered 0 []
unfolding lookup
nothing = record { below = λ h p e. cc; apart = λ h k p e f. cc }

zero_found : lookup {K = ℕ} {V = ℕ} 0 ((0, 0) ∷ []) ≡ some 0
unfolding lookup
zero_found = refl

only_zero : AreNumbered 1 ((0, 0) ∷ [])
unfolding lookup
only_zero = record { below = λ h p e. ground arith; apart = λ h k p e f. ground arith }

-- After InitializePlacementHandles, 0 and every reclaim unit handle of the configuration have a
-- placement handle, and different reclaim unit handles have different placement handles.
pub initialize_placement_handles-IsPlaced :
    (ruhs : List (Str × ℕ))
    → IsPlaced 0 (initialize_placement_handles ruhs)
      × All (λ x. IsPlaced x.1 (initialize_placement_handles ruhs)) ruhs
      × ((h k p : ℕ)
          → lookup h (initialize_placement_handles ruhs) ≡ some p
          → lookup k (initialize_placement_handles ruhs) ≡ some p
          → h ≡ k)
unfolding initialize_placement_handles
initialize_placement_handles-IsPlaced ruhs = elim (Bool-cases (has_zero (sorted_ruhs ruhs []))) [
  | inl zero_there ↦
      let w = number_handles-Numbers 0 (sorted_ruhs ruhs []) [] nothing in
      rw zero_there (
        has_zero-All (λ h. IsPlaced h (number_handles 0 (sorted_ruhs ruhs []) []))
            (sorted_ruhs ruhs []) zero_there w.placed,
        (sorted_ruhs-All (λ h. IsPlaced h (number_handles 0 (sorted_ruhs ruhs []) [])) ruhs []
            w.placed).0,
        w.apart,
      )
  | inr zero_missing ↦
      let w = number_handles-Numbers 1 (sorted_ruhs ruhs []) ((0, 0) ∷ []) only_zero in
      rw zero_missing (
        (0, w.kept 0 0 zero_found),
        (sorted_ruhs-All (λ h. IsPlaced h (number_handles 1 (sorted_ruhs ruhs []) ((0, 0) ∷ [])))
            ruhs [] w.placed).0,
        w.apart,
      )
]
