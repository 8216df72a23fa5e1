-- ===== src/TempFiles/Counts.antt =====
-- How often a block's name stands in the block maps of the temporary files.
use nvmefs.Prelude.{
  ℕ, zero, suc, ◌+◌, ◌≡◌, refl, List, [], ◌∷◌, some, none, ◌==◌, arith, Str, str_lt, ltb, lookup,
  insert, erase, insert_sorted, nat_eq, string_eq, ◌≤◌,
}
use nvmefs.BlockManager.Counts.{one_if}
use nvmefs.TempFiles.Defs.{TempFileMetadata}

unfoldable pub map_count : ℕ → List (ℕ × ℕ) → ℕ
map_count x [] = 0
map_count x ((i, y) ∷ m) = one_if (y == x) + map_count x m

unfoldable pub owned_count : ℕ → List (Str × TempFileMetadata) → ℕ
owned_count x [] = 0
owned_count x ((f, tf) ∷ fs) = map_count x tf.block_map + owned_count x fs

pub map_count-insert_sorted :
    (x i y : ℕ) (m : List (ℕ × ℕ))
    → lookup i m ≡ none
    → map_count x (insert_sorted ltb i y m) ≡ one_if (y == x) + map_count x m
unfolding map_count lookup insert_sorted
map_count-insert_sorted x i y [] h = refl
map_count-insert_sorted x i y ((j, z) ∷ m) h = ground (arith, map_count-insert_sorted x i y m)

pub map_count-erase :
    (x i y : ℕ) (m : List (ℕ × ℕ))
    → lookup i m ≡ some y
    → one_if (y == x) + map_count x (erase i m) ≡ map_count x m
unfolding map_count lookup erase
map_count-erase x i y [] h = cc
map_count-erase x i y ((j, z) ∷ m) h = ground (arith, map_count-erase x i y m)

pub map_count_found : (i y : ℕ) (m : List (ℕ × ℕ)) → lookup i m ≡ some y → suc zero ≤ map_count y m
unfolding map_count lookup
map_count_found i y [] h = cc
map_count_found i y ((j, z) ∷ m) h = ground (arith, map_count_found i y m)

module _ (x : ℕ) (f : Str) where
  pub owned_count-insert_sorted :
      (tf : TempFileMetadata) (fs : List (Str × TempFileMetadata))
      → lookup f fs ≡ none
      → owned_count x (insert_sorted str_lt f tf fs) ≡ map_count x tf.block_map + owned_count x fs
  unfolding owned_count lookup insert_sorted
  owned_count-insert_sorted tf [] h = refl
  owned_count-insert_sorted tf ((g, w) ∷ fs) h = ground (arith, owned_count-insert_sorted tf fs)

  pub owned_count-insert :
      (tf new : TempFileMetadata) (fs : List (Str × TempFileMetadata))
      → lookup f fs ≡ some tf
      → owned_count x (insert f new fs) + map_count x tf.block_map
        ≡ owned_count x fs + map_count x new.block_map
  unfolding owned_count lookup insert
  owned_count-insert tf new [] h = cc
  owned_count-insert tf new ((g, w) ∷ fs) h = ground (arith, owned_count-insert tf new fs)

  pub owned_count-erase :
      (tf : TempFileMetadata) (fs : List (Str × TempFileMetadata))
      → lookup f fs ≡ some tf
      → map_count x tf.block_map + owned_count x (erase f fs) ≡ owned_count x fs
  unfolding owned_count lookup erase
  owned_count-erase tf [] h = cc
  owned_count-erase tf ((g, w) ∷ fs) h = ground (arith, owned_count-erase tf fs)

  pub map-le-owned :
      (tf : TempFileMetadata) (fs : List (Str × TempFileMetadata))
      → lookup f fs ≡ some tf
      → map_count x tf.block_map ≤ owned_count x fs
  map-le-owned tf fs h = omega (arith, owned_count-erase tf fs h)
