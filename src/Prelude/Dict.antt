-- ===== src/Prelude/Dict.antt =====
-- Maps as association lists; the order of the list is the order of iteration.
use Prim.Native.Nat.{ℕ, suc}
use mathlib.Core.Path.{◌≡◌, refl}
use mathlib.Core.Logic.{◌↔◌}
use mathlib.Core.Bool.{Bool, true, false}
use mathlib.Core.Option.{Option, none, some}
use mathlib.Core.List.{List, [], ◌∷◌}
use native.Mathlib.Omega.{arith}
use nvmefs.Prelude.Lists.{length}
use nvmefs.Prelude.Tests.{◌==◌, if◌then◌else◌, ==_iff}
use nvmefs.Prelude.Text.{Str, str_eq, str_eq_iff}

pub record Eq {ℓ} (A : Type ℓ) : Type ℓ where
  pub beq : A → A → Bool
  pub beq_iff : (a b : A) → (beq a b ≡ true) ↔ (a ≡ b)

instance abbrev pub nat_eq : Eq ℕ
nat_eq = record { beq = ◌==◌; beq_iff = ==_iff }

instance abbrev pub string_eq : Eq Str
string_eq = record { beq = str_eq; beq_iff = str_eq_iff }

module _ {ℓ κ} {K : Type ℓ} {V : Type κ} ⦃e : Eq K⦄ where
  unfoldable pub lookup : K → List (K × V) → Option V
  lookup k [] = none
  lookup k ((j, v) ∷ m) = if e.beq j k then some v else lookup k m

  -- operator[] with an assignment: the value of a present key is replaced in its place.
  unfoldable pub insert : K → V → List (K × V) → List (K × V)
  insert k v [] = (k, v) ∷ []
  insert k v ((j, w) ∷ m) = if e.beq j k then (k, v) ∷ m else (j, w) ∷ insert k v m

  -- The keys of a map are different: one entry at most goes.
  unfoldable pub erase : K → List (K × V) → List (K × V)
  erase k [] = []
  erase k ((j, w) ∷ m) = if e.beq j k then m else (j, w) ∷ erase k m

  pub lookup-insert :
      (k j : K) (v : V) (m : List (K × V))
      → lookup j (insert k v m) ≡ (if e.beq k j then some v else lookup j m)
  unfolding lookup insert
  lookup-insert k j v [] = refl
  lookup-insert k j v ((i, w) ∷ m) =
      ground (arith, e.beq_iff k j, e.beq_iff i k, e.beq_iff i j, lookup-insert k j v m)

  -- std::map keeps its entries in the order of their keys.
  unfoldable pub insert_sorted : (K → K → Bool) → K → V → List (K × V) → List (K × V)
  insert_sorted lt k v [] = (k, v) ∷ []
  insert_sorted lt k v ((j, w) ∷ m) =
      if lt k j
      then (k, v) ∷ (j, w) ∷ m
      else if e.beq j k
      then (k, v) ∷ m
      else (j, w) ∷ insert_sorted lt k v m

  pub lookup-erase_other :
      (k j : K) (m : List (K × V)) → e.beq k j ≡ false → lookup j (erase k m) ≡ lookup j m
  unfolding lookup erase
  lookup-erase_other k j [] h = refl
  lookup-erase_other k j ((i, w) ∷ m) h =
      ground (arith, e.beq_iff k j, e.beq_iff i k, e.beq_iff i j, lookup-erase_other k j m)

  pub length-erase :
      (k : K) (v : V) (m : List (K × V)) → lookup k m ≡ some v → suc (length (erase k m)) ≡ length m
  unfolding lookup erase
  length-erase k v [] h = cc
  length-erase k v ((i, w) ∷ m) h = ground (arith, length-erase k v m)

  pub lookup-insert_sorted :
      (lt : K → K → Bool) (k j : K) (v : V) (m : List (K × V))
      → lookup j (insert_sorted lt k v m) ≡ (if e.beq k j then some v else lookup j m)
  unfolding lookup insert_sorted
  lookup-insert_sorted lt k j v [] = refl
  lookup-insert_sorted lt k j v ((i, w) ∷ m) =
      ground (arith, e.beq_iff k j, e.beq_iff i k, e.beq_iff i j, lookup-insert_sorted lt k j v m)
