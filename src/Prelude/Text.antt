-- ===== src/Prelude/Text.antt =====
-- std::string as the list of its characters' codes.
use Prim.Native.Char.{code}
use Prim.Native.String.{String}
use Prim.Native.Nat.{ℕ, suc}
use mathlib.Core.Path.{◌≡◌, refl}
use mathlib.Core.Logic.{◌↔◌}
use mathlib.Core.Bool.{Bool, true, false, ◌&&◌}
use mathlib.Core.Option.{Option, none, some}
use mathlib.Core.List.{List, [], ◌∷◌}
use native.Mathlib.Omega.{arith}
use nvmefs.Prelude.Tests.{◌==◌, ltb, leb, if◌then◌else◌}

abbrev pub Str : Type 0
Str = List ℕ

abbrev pub codes : String → Str
codes String.[] = []
codes (String.◌∷◌ c s) = code c ∷ codes s

-- operator== of std::string.
unfoldable pub str_eq : Str → Str → Bool
str_eq [] [] = true
str_eq [] (y ∷ ys) = false
str_eq (x ∷ xs) [] = false
str_eq (x ∷ xs) (y ∷ ys) = (x == y) && str_eq xs ys

pub str_eq_sound : (xs ys : Str) → str_eq xs ys ≡ true → xs ≡ ys
unfolding str_eq
str_eq_sound [] [] h = refl
str_eq_sound [] (y ∷ ys) h = cc
str_eq_sound (x ∷ xs) [] h = cc
str_eq_sound (x ∷ xs) (y ∷ ys) h = ground (arith, str_eq_sound xs ys)

pub str_eq_refl : (xs : Str) → str_eq xs xs ≡ true
unfolding str_eq
str_eq_refl [] = refl
str_eq_refl (x ∷ xs) = ground (arith, str_eq_refl xs)

pub str_eq_iff : (xs ys : Str) → (str_eq xs ys ≡ true) ↔ (xs ≡ ys)
str_eq_iff xs ys = (str_eq_sound xs ys, λ e. rw e (str_eq_refl ys))

-- operator< of std::string.
unfoldable pub str_lt : Str → Str → Bool
str_lt xs [] = false
str_lt [] (y ∷ ys) = true
str_lt (x ∷ xs) (y ∷ ys) = if ltb x y then true else if x == y then str_lt xs ys else false

unfoldable pub find_from : ℕ → ℕ → Str → ℕ → Option ℕ
find_from c at [] from = none
find_from c at (x ∷ xs) from =
    let rest = find_from c (suc at) xs from in if leb from at && (x == c) then some at else rest

-- find of a character from a position on.
unfoldable pub find : Str → ℕ → ℕ → Option ℕ
find s c from = find_from c 0 s from

unfoldable pub last_from : ℕ → ℕ → Str → Option ℕ
last_from c at [] = none
last_from c at (x ∷ xs) = elim (last_from c (suc at) xs) [
  | some i ↦ some i
  | none ↦ if x == c then some at else none
]

-- find_last_of one character.
unfoldable pub find_last_of : Str → ℕ → Option ℕ
find_last_of s c = last_from c 0 s
