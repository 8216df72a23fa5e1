-- ===== src/PathHandler/Names.antt =====
-- The files of one database have one name.
use nvmefs.Prelude.{
  ℕ, ◌-◌, ◌≡◌, refl, sym, ◌∙◌, ap, ◌≢◌, [], ◌∷◌, ◌++◌, length, arith, take-append_left,
  drop-append_left, length-append, Str, Bool-cases, inl, inr, Option, some, none,
}
use nvmefs.PathHandler.Defs.{
  StringUtil, strip_prefix, strip_suffix, extract_database_name, path_prefix, checkpoint_suffix,
  wal_suffix, db_suffix,
}

-- The paths of a database's files.
abbrev pub db_path : Str → Str
db_path name = path_prefix ++ (name ++ db_suffix)

abbrev pub wal_path : Str → Str
wal_path name = path_prefix ++ ((name ++ db_suffix) ++ wal_suffix)

abbrev pub checkpoint_path : Str → Str
checkpoint_path name = path_prefix ++ (((name ++ db_suffix) ++ wal_suffix) ++ checkpoint_suffix)

unfoldable pub last : Str → Option ℕ
last [] = none
last (c ∷ []) = some c
last (c ∷ d ∷ s) = last (d ∷ s)

pub last-append : (s : Str) (c : ℕ) (t : Str) → last (s ++ (c ∷ t)) ≡ last (c ∷ t)
unfolding last
last-append [] c t = refl
last-append (d ∷ []) c t = refl
last-append (d ∷ e ∷ s) c t = last-append (e ∷ s) c t

module _ (u : StringUtil) where
  strip_suffix_hit : (suffix name : Str) → strip_suffix u suffix (name ++ suffix) ≡ name
  unfolding strip_suffix
  strip_suffix_hit suffix name =
      let hit = (u.ends_with_iff (name ++ suffix) suffix).1 (name, refl) in
      let rest : length (name ++ suffix) - length suffix ≡ length name =
        omega (arith, length-append name suffix) in
      rw (hit, rest) (take-append_left name suffix)

  -- A name that ends otherwise is left alone: here, in another last character.
  strip_suffix_miss :
      (suffix name : Str) (c : ℕ) (t : Str)
      → suffix ≡ c ∷ t
      → last (c ∷ t) ≢ last name
      → strip_suffix u suffix name ≡ name
  unfolding strip_suffix
  strip_suffix_miss suffix name c t e ne = elim (Bool-cases (u.ends_with name suffix)) [
    | inl hit ↦
        let (before, split) = (u.ends_with_iff name suffix).0 hit in
        absurd (
          ne (
            sym (last-append before c t)
            ∙ ap (λ s. last (before ++ s)) (sym e)
            ∙ ap last (sym split)))
    | inr miss ↦ rw miss
  ]

  strip_prefix_hit : (name : Str) → strip_prefix u (path_prefix ++ name) ≡ name
  unfolding strip_prefix
  strip_prefix_hit name =
      let hit = (u.starts_with_iff (path_prefix ++ name) path_prefix).1 (name, refl) in
      rw hit (drop-append_left path_prefix name)

  db-not_checkpoint : (s : Str) → strip_suffix u checkpoint_suffix (s ++ db_suffix) ≡ s ++ db_suffix
  unfolding last
  db-not_checkpoint s =
      strip_suffix_miss checkpoint_suffix (s ++ db_suffix) _ _ refl
        (λ e. absurd (ground (arith, e ∙ last-append s _ _)))

  wal-not_checkpoint :
      (s : Str) → strip_suffix u checkpoint_suffix (s ++ wal_suffix) ≡ s ++ wal_suffix
  unfolding last
  wal-not_checkpoint s =
      strip_suffix_miss checkpoint_suffix (s ++ wal_suffix) _ _ refl
        (λ e. absurd (ground (arith, e ∙ last-append s _ _)))

  db-not_wal : (s : Str) → strip_suffix u wal_suffix (s ++ db_suffix) ≡ s ++ db_suffix
  unfolding last
  db-not_wal s =
      strip_suffix_miss wal_suffix (s ++ db_suffix) _ _ refl
        (λ e. absurd (ground (arith, e ∙ last-append s _ _)))

  -- The paths of a database file, of its log and of the log's checkpoint file all have the database
  -- name `name`, whatever its characters.
  pub extract_database_name-files :
      (name : Str)
      → (extract_database_name u (db_path name) ≡ name)
        × (extract_database_name u (wal_path name) ≡ name)
        × (extract_database_name u (checkpoint_path name) ≡ name)
  unfolding extract_database_name
  extract_database_name-files name = (
    rw (strip_prefix_hit (name ++ db_suffix), db-not_checkpoint name, db-not_wal name)
        (strip_suffix_hit db_suffix name),
    rw
        (
          strip_prefix_hit ((name ++ db_suffix) ++ wal_suffix),
          wal-not_checkpoint (name ++ db_suffix),
          strip_suffix_hit wal_suffix (name ++ db_suffix),
        )
        (strip_suffix_hit db_suffix name),
    rw
        (
          strip_prefix_hit (((name ++ db_suffix) ++ wal_suffix) ++ checkpoint_suffix),
          strip_suffix_hit checkpoint_suffix ((name ++ db_suffix) ++ wal_suffix),
          strip_suffix_hit wal_suffix (name ++ db_suffix),
        )
        (strip_suffix_hit db_suffix name),
  )
