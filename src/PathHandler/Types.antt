-- ===== src/PathHandler/Types.antt =====
-- Which type the files of a database are taken for.
use nvmefs.Prelude.{
  ◌≡◌, refl, sym, ◌∙◌, ap, false, [], ◌++◌, arith, Str, codes, str_eq, str_eq_sound, Bool-cases,
  inl, inr,
}
use mathlib.Core.List.{append_assoc}
use nvmefs.PathHandler.Defs.{
  StringUtil, database, wal, get_file_type, path_prefix, wal_suffix, db_suffix,
  global_metadata_path,
}
use nvmefs.PathHandler.Names.{db_path, wal_path, last, last-append}

-- No database file and no log is the file of the global metadata.
db_not_metadata : (name : Str) → str_eq (db_path name) global_metadata_path ≡ false
unfolding last
db_not_metadata name = elim (Bool-cases (str_eq (db_path name) global_metadata_path)) [
  | inl same ↦ absurd (
      ground (
        arith,
        ap last (str_eq_sound _ _ same),
        ap last (sym (append_assoc path_prefix name db_suffix))
            ∙ last-append (path_prefix ++ name) b'.' (codes "db"),
      ))
  | inr other ↦ other
]

wal_not_metadata : (name : Str) → str_eq (wal_path name) global_metadata_path ≡ false
unfolding last
wal_not_metadata name = elim (Bool-cases (str_eq (wal_path name) global_metadata_path)) [
  | inl same ↦ absurd (
      ground (
        arith,
        ap last (str_eq_sound _ _ same),
        ap last (sym (append_assoc path_prefix (name ++ db_suffix) wal_suffix))
            ∙ last-append (path_prefix ++ (name ++ db_suffix)) b'.' (codes "wal"),
      ))
  | inr other ↦ other
]

module _ (u : StringUtil) (name : Str) where
  -- If the path of a database file contains neither ".wal" nor "/tmp", the file has the type DATABASE
  -- and its log the type WAL.
  pub get_file_type-files :
      u.contains (db_path name) wal_suffix ≡ false
      → u.contains (db_path name) (codes "/tmp") ≡ false
      → (get_file_type u (db_path name) ≡ database) × (get_file_type u (wal_path name) ≡ wal)
  unfolding get_file_type
  get_file_type-files a b =
      let found = (u.contains_iff (db_path name) db_suffix).1 (path_prefix ++ name, [], refl) in
      let log =
        (u.contains_iff (wal_path name) wal_suffix).1
          (path_prefix ++ (name ++ db_suffix), [], refl) in
      (rw (db_not_metadata name, a, b, found), rw (wal_not_metadata name, log))

  -- If the name of a database contains ".wal", its data file has the type WAL, like its log.
  pub get_file_type-wal_name :
      (before after : Str)
      → name ≡ before ++ (wal_suffix ++ after)
      → (get_file_type u (db_path name) ≡ wal) × (get_file_type u (wal_path name) ≡ wal)
  unfolding get_file_type
  get_file_type-wal_name before after e =
      let looks =
        (u.contains_iff (db_path name) wal_suffix).1
          (path_prefix ++ before, after ++ db_suffix, simp (e, append_assoc)) in
      let log =
        (u.contains_iff (wal_path name) wal_suffix).1
          (path_prefix ++ (name ++ db_suffix), [], refl) in
      (rw (db_not_metadata name, looks), rw (wal_not_metadata name, log))
