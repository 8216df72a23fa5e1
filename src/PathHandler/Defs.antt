-- ===== src/PathHandler/Defs.antt =====
-- NvmePathHandler. The string tests are DuckDB's StringUtil, a parameter with its documented laws.
use nvmefs.Prelude.{
  ◌-◌, ◌≡◌, ◌↔◌, Bool, true, ◌++◌, if◌then◌else◌, take, drop, length, Str, codes, str_eq,
}

pub record StringUtil : Type 0 where
  pub contains : Str → Str → Bool
  pub starts_with : Str → Str → Bool
  pub ends_with : Str → Str → Bool
  pub contains_iff :
      (s p : Str)
      → (contains s p ≡ true) ↔ ((before : Str) × (after : Str) × (s ≡ before ++ (p ++ after)))
  pub starts_with_iff : (s p : Str) → (starts_with s p ≡ true) ↔ ((after : Str) × (s ≡ p ++ after))
  pub ends_with_iff : (s p : Str) → (ends_with s p ≡ true) ↔ ((before : Str) × (s ≡ before ++ p))

pub data NvmeFileType : Type 0 where
  database wal temporary global_metadata unknown : NvmeFileType

abbrev pub path_prefix : Str
path_prefix = codes "nvmefs://"

abbrev pub tmp_dir_path : Str
tmp_dir_path = codes "nvmefs:///tmp"

abbrev pub global_metadata_path : Str
global_metadata_path = codes "nvmefs://.global_metadata"

abbrev pub checkpoint_suffix : Str
checkpoint_suffix = codes ".checkpoint"

abbrev pub wal_suffix : Str
wal_suffix = codes ".wal"

abbrev pub db_suffix : Str
db_suffix = codes ".db"

module _ (u : StringUtil) where
  unfoldable pub get_file_type : Str → NvmeFileType
  get_file_type path =
      if str_eq path global_metadata_path
      then global_metadata
      else if u.contains path wal_suffix
      then wal
      else if u.contains path (codes "/tmp")
      then temporary
      else if u.contains path db_suffix
      then database
      else unknown

  unfoldable pub is_internal_path : Str → Bool
  is_internal_path path = u.starts_with path path_prefix

  -- `name.substr(0, name.length() - n)` behind the test for a suffix of `n` characters.
  unfoldable pub strip_suffix : Str → Str → Str
  strip_suffix suffix name =
      if u.ends_with name suffix then take (length name - length suffix) name else name

  unfoldable pub strip_prefix : Str → Str
  strip_prefix name =
      if u.starts_with name path_prefix then drop (length path_prefix) name else name

  unfoldable pub extract_database_name : Str → Str
  unfolding strip_prefix strip_suffix
  extract_database_name path =
      strip_suffix db_suffix
        (strip_suffix wal_suffix (strip_suffix checkpoint_suffix (strip_prefix path)))
