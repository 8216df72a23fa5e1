-- ===== src/Tests/Settings.antt =====
-- A secret with two databases, and the functions that LoadConfig calls.
use nvmefs.Prelude.{
  ℕ, ◌+◌, ◌-◌, ◌*◌, ◌≡◌, refl, ◌&&◌, List, [], ◌∷◌, some, none, if◌then◌else◌, leb, ◌==◌, Str,
  codes, Run, ok, err, Option, str_eq, mul64, insert,
}
use nvmefs.Config.{
  Library, Settings, Secret, load_config, load_secret, load_lists, set_options,
  add_extension_option, parse_mapping, parse_db_configs, parse_db_entry, parse_size,
  remove_whitespace, entries, sized_config,
}
use nvmefs.Metadata.Defs.{NvmeConfig}
use nvmefs.Tests.Paths.{strings, ends}

abbrev add_head : ℕ → List Str → List Str
add_head c [] = (c ∷ []) ∷ []
add_head c (s ∷ ss) = (c ∷ s) ∷ ss

-- The pieces between the first characters of a separator.
abbrev pieces : ℕ → Str → List Str
pieces sep [] = [] ∷ []
pieces sep (c ∷ s) = if c == sep then [] ∷ pieces sep s else add_head c (pieces sep s)

abbrev split_at : Str → Str → List Str
split_at s [] = s ∷ []
split_at s (c ∷ sep) = pieces c s

abbrev digits : Str → ℕ → ℕ
digits [] n = n
digits (c ∷ s) n = if leb 48 c && leb c 57 then digits s (n * 10 + (c - 48)) else n

abbrev functions : Library
functions = record {
  util = strings;
  split = split_at;
  lower = λ s. s;
  is_space = λ c. c == 32;
  stoull = λ s. some (digits s 0);
  stoul = λ s. some (digits s 0);
}

abbrev secret : Secret
secret = record {
  type = codes "nvmefs";
  try_get_value =
      λ name. if str_eq name (codes "db_configs") then some (codes "a: 1GB,b:20MB") else none;
}

abbrev no_settings : Settings
no_settings = record { options = []; temp_directory = none }

abbrev databases_of : Run Settings NvmeConfig → Option (List (Str × ℕ))
databases_of (ok config s) = some config.db_configs
databases_of (err e s) = none

-- The two databases of the secret, with a gibibyte and with twenty mebibytes.
parsed_databases :
    databases_of (load_config functions (some secret) none 4 no_settings)
    ≡ some ((codes "a", 1073741824) ∷ (codes "b", 20971520) ∷ [])
unfolding load_config load_secret load_lists set_options add_extension_option parse_mapping
    parse_db_configs parse_db_entry parse_size remove_whitespace entries sized_config str_eq mul64
    insert ends
parsed_databases = refl
