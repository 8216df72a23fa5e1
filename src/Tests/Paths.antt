-- ===== src/Tests/Paths.antt =====
-- A model of DuckDB's string tests, and the paths of the database "a".
use nvmefs.Prelude.{
  ◌≡◌, refl, ◌∙◌, ap, Bool, true, false, ◌&&◌, ◌||◌, [], ◌∷◌, ◌++◌, arith, Str, codes, ◌==◌, str_eq,
  str_eq_sound, str_eq_refl, Bool-cases, inl, inr,
}
use nvmefs.PathHandler.Defs.{StringUtil, database, wal, get_file_type, extract_database_name}
use nvmefs.PathHandler.Names.{db_path, wal_path, checkpoint_path, extract_database_name-files}
use nvmefs.PathHandler.Types.{get_file_type-files, get_file_type-wal_name}

unfoldable pub begins : Str → Str → Bool
begins s [] = true
begins [] (p ∷ ps) = false
begins (c ∷ s) (p ∷ ps) = (c == p) && begins s ps

pub begins_sound : (s p : Str) → begins s p ≡ true → (after : Str) × (s ≡ p ++ after)
unfolding begins
begins_sound s [] h = (s, refl)
begins_sound [] (p ∷ ps) h = absurd (ground arith)
begins_sound (c ∷ s) (p ∷ ps) h =
    let (after, e) = begins_sound s ps (ground arith) in (after, ground arith)

pub begins_append : (p after : Str) → begins (p ++ after) p ≡ true
unfolding begins
begins_append [] [] = refl
begins_append [] (c ∷ s) = refl
begins_append (p ∷ ps) after = ground (arith, begins_append ps after)

unfoldable pub holds : Str → Str → Bool
holds [] p = begins [] p
holds (c ∷ s) p = begins (c ∷ s) p || holds s p

pub holds_sound :
    (s p : Str) → holds s p ≡ true → (before : Str) × (after : Str) × (s ≡ before ++ (p ++ after))
unfolding holds
holds_sound [] p h = let (after, e) = begins_sound [] p h in ([], after, e)
holds_sound (c ∷ s) p h = elim (Bool-cases (begins (c ∷ s) p)) [
  | inl hit ↦ let (after, e) = begins_sound (c ∷ s) p hit in ([], after, e)
  | inr miss ↦
      let (before, after, e) = holds_sound s p (ground arith) in (c ∷ before, after, ap (◌∷◌ c) e)
]

pub holds_append : (before p after : Str) → holds (before ++ (p ++ after)) p ≡ true
unfolding holds
holds_append [] p after = start (p ++ after) p (begins_append p after)
  where
    start : (s q : Str) → begins s q ≡ true → holds s q ≡ true
    start [] q h = h
    start (c ∷ s) q h = rw h
holds_append (c ∷ before) p after = ground (arith, holds_append before p after)

unfoldable pub ends : Str → Str → Bool
ends [] p = str_eq [] p
ends (c ∷ s) p = str_eq (c ∷ s) p || ends s p

pub ends_sound : (s p : Str) → ends s p ≡ true → (before : Str) × (s ≡ before ++ p)
unfolding ends
ends_sound [] p h = ([], str_eq_sound [] p h)
ends_sound (c ∷ s) p h = elim (Bool-cases (str_eq (c ∷ s) p)) [
  | inl hit ↦ ([], str_eq_sound (c ∷ s) p hit)
  | inr miss ↦ let (before, e) = ends_sound s p (ground arith) in (c ∷ before, ap (◌∷◌ c) e)
]

pub ends_append : (before p : Str) → ends (before ++ p) p ≡ true
unfolding ends
ends_append [] [] = str_eq_refl []
ends_append [] (c ∷ p) = rw (str_eq_refl (c ∷ p))
ends_append (c ∷ before) p = ground (arith, ends_append before p)

abbrev pub strings : StringUtil
strings = record {
  contains = holds;
  starts_with = begins;
  ends_with = ends;
  contains_iff = λ s p.
      (holds_sound s p, λ (before, after, e). ap (λ t. holds t p) e ∙ holds_append before p after);
  starts_with_iff =
      λ s p. (begins_sound s p, λ (after, e). ap (λ t. begins t p) e ∙ begins_append p after);
  ends_with_iff =
      λ s p. (ends_sound s p, λ (before, e). ap (λ t. ends t p) e ∙ ends_append before p);
}

abbrev name_a : Str
name_a = codes "a"

extract_database_name-files_example :
    (extract_database_name strings (db_path name_a) ≡ name_a)
    × (extract_database_name strings (wal_path name_a) ≡ name_a)
    × (extract_database_name strings (checkpoint_path name_a) ≡ name_a)
extract_database_name-files_example = extract_database_name-files strings name_a

get_file_type-files_example :
    (get_file_type strings (db_path name_a) ≡ database)
    × (get_file_type strings (wal_path name_a) ≡ wal)
unfolding holds begins
get_file_type-files_example = get_file_type-files strings name_a refl refl

get_file_type-wal_name_example :
    (get_file_type strings (db_path (codes "my.wallet")) ≡ wal)
    × (get_file_type strings (wal_path (codes "my.wallet")) ≡ wal)
get_file_type-wal_name_example =
    get_file_type-wal_name strings (codes "my.wallet") (codes "my") (codes "let") refl
