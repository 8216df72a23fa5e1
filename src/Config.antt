-- ===== src/Config.antt =====
-- src/nvmefs_config.cpp: the secret, and LoadConfig, which makes an NvmeConfig of it. What LoadConfig
-- calls of DuckDB and C++ is a parameter.
use nvmefs.Prelude.{
  ℕ, ◌*◌, ◌%◌, ◌^◌, Bool, true, false, not, ◌||◌, ◌&&◌, List, [], ◌∷◌, Option, none, some,
  if◌then◌else◌, mul64, Str, codes, str_eq, insert, string_eq, bad_number, no_secret,
  wrong_secret_type, ok, err, Cmd, pure, throw, modify, ◌>>=◌, ◌>>◌,
}
use nvmefs.Metadata.Defs.{NvmeConfig}
use nvmefs.PathHandler.Defs.{StringUtil}

-- StringUtil::Split and Lower, isspace, and the number that std::stoull and std::stoul read at the
-- start of a string.
pub record Library : Type 0 where
  pub util : StringUtil
  pub split : Str → Str → List Str
  pub lower : Str → Str
  pub is_space : ℕ → Bool
  pub stoull : Str → Option ℕ
  pub stoul : Str → Option ℕ

-- What LoadConfig sets in the database: the options, the last one first, and the temporary directory.
pub record Settings : Type 0 where
  pub options : List (Str × Str)
  pub temp_directory : Option Str

-- A secret with its type, and TryGetValue of it.
pub record Secret : Type 0 where
  pub type : Str
  pub try_get_value : Str → Option Str

abbrev pub nvmefs_backends : List Str
nvmefs_backends =
    codes "io_uring"
    ∷ codes "io_uring_cmd"
    ∷ codes "spdk"
    ∷ codes "nvme"
    ∷ codes "libaio"
    ∷ codes "io_ring"
    ∷ codes "iocp"
    ∷ codes "iocp_th"
    ∷ codes "posix"
    ∷ codes "emu"
    ∷ codes "thrpool"
    ∷ codes "nil"
    ∷ []

abbrev pub is_member : Str → List Str → Bool
is_member s [] = false
is_member s (t ∷ ts) = str_eq s t || is_member s ts

abbrev pub is_empty : Str → Bool
is_empty [] = true
is_empty (c ∷ s) = false

unfoldable pub sanatize_backend : Str → Str
sanatize_backend backend =
    if is_empty backend || not (is_member backend nvmefs_backends) then codes "nvme" else backend

-- CreateNvmefsSecretFromConfig: the scope, and the map under lower-case names.
unfoldable pub secret_scope : List Str → List Str
secret_scope [] = codes "nvmefs://" ∷ []
secret_scope (s ∷ scope) = s ∷ scope

abbrev pub value_or : Str → Option Str → Str
value_or s none = s
value_or s (some t) = t

module _ (l : Library) where
  unfoldable pub secret_map : List (Str × Str) → List (Str × Str) → List (Str × Str)
  secret_map [] m = m
  secret_map ((name, value) ∷ options) m = secret_map options (insert (l.lower name) value m)

  unfoldable pub parse_size : Str → Cmd Settings ℕ
  parse_size size_str s =
      let multiplier =
        if l.util.ends_with size_str (codes "GB")
        then 2 ^ 30
        else if l.util.ends_with size_str (codes "MB")
        then 2 ^ 20
        else 1 in
      elim (l.stoull size_str) [ none ↦ err bad_number s | some n ↦ ok (mul64 n multiplier) s ]

  unfoldable pub remove_whitespace : Str → Str
  remove_whitespace [] = []
  remove_whitespace (c ∷ s) = if l.is_space c then remove_whitespace s else c ∷ remove_whitespace s

  -- What is neither on nor off is off.
  unfoldable pub parse_use_fdp : Str → Bool
  parse_use_fdp s =
      if str_eq s (codes "on") || (str_eq s (codes "true") || str_eq s (codes "1"))
      then true
      else false

  -- One entry of the mapping: two parts that are not empty, the second one cut to 16 bits.
  unfoldable pub parse_mapping_entry : List Str → List (Str × ℕ) → Cmd Settings (List (Str × ℕ))
  parse_mapping_entry (k ∷ v ∷ []) m s =
      let key = remove_whitespace k in
      let val = remove_whitespace v in
      if not (is_empty key) && not (is_empty val)
      then elim (l.stoul val) [
        | none ↦ err bad_number s
        | some n ↦ ok (insert key (n % 2 ^ 16) m) s
      ]
      else ok m s
  parse_mapping_entry [] m s = ok m s
  parse_mapping_entry (k ∷ []) m s = ok m s
  parse_mapping_entry (k ∷ v ∷ w ∷ ws) m s = ok m s

  unfoldable pub parse_mapping : List Str → List (Str × ℕ) → Cmd Settings (List (Str × ℕ))
  parse_mapping [] m = pure m
  parse_mapping (pair ∷ pairs) m =
      parse_mapping_entry (l.split pair (codes ":")) m >>= (λ m'. parse_mapping pairs m')

  -- One entry of the databases: a name in lower case, and a size.
  unfoldable pub parse_db_entry : List Str → List (Str × ℕ) → Cmd Settings (List (Str × ℕ))
  parse_db_entry (k ∷ v ∷ []) m =
      parse_size (remove_whitespace v)
      >>= (λ size. pure (insert (l.lower (remove_whitespace k)) size m))
  parse_db_entry [] m = pure m
  parse_db_entry (k ∷ []) m = pure m
  parse_db_entry (k ∷ v ∷ w ∷ ws) m = pure m

  unfoldable pub parse_db_configs : List Str → List (Str × ℕ) → Cmd Settings (List (Str × ℕ))
  parse_db_configs [] m = pure m
  parse_db_configs (pair ∷ pairs) m =
      parse_db_entry (l.split pair (codes ":")) m >>= (λ m'. parse_db_configs pairs m')

  -- The entries of a list that is separated by commas.
  unfoldable pub entries : Str → List Str
  entries s = if is_empty s then [] else l.split s (codes ",")

  unfoldable pub add_extension_option : Str → Str → Cmd Settings (Unit {0})
  add_extension_option name value = modify (λ s. record s { options = (name, value) ∷ s.options })

  -- The options, and the temporary directory of a database with a device.
  unfoldable pub set_options :
      (device backend meta mapping use_fdp db_configs : Str) → Cmd Settings (Unit {0})
  set_options device backend meta mapping use_fdp db_configs = do
    add_extension_option (codes "nvme_device_path") device
    add_extension_option (codes "backend") backend
    add_extension_option (codes "meta") meta
    add_extension_option (codes "fdp_mapping") mapping
    add_extension_option (codes "use_fdp") use_fdp
    add_extension_option (codes "db_configs") db_configs
    if is_empty device
        then pure tt
        else modify (λ s. record s { temp_directory = some (codes "nvmefs:///tmp") })

  -- The last fields of the configuration.
  unfoldable pub sized_config : Str → NvmeConfig → List (Str × ℕ) → Cmd Settings NvmeConfig
  sized_config default_db_size_str config db_configs = do
    default_db_size ← parse_size default_db_size_str
    pure (record config { db_configs = db_configs; default_db_size = default_db_size })

  -- The lists, which are parsed before the fields that need them are set.
  unfoldable pub load_lists : (mapping db_configs size : Str) → NvmeConfig → Cmd Settings NvmeConfig
  load_lists mapping_str db_configs_str size_str config = do
    fdp_mapping ← parse_mapping (entries mapping_str) []
    db_configs ← parse_db_configs (entries db_configs_str) []
    sized_config size_str (record config { fdp_mapping = fdp_mapping }) db_configs

  -- LoadConfig from the secret on; `max_swap` is the maximum of the swap space, if one is set.
  unfoldable pub load_secret :
      (Str → Option Str) → (max_swap : Option ℕ) → (max_threads : ℕ) → Cmd Settings NvmeConfig
  load_secret try_get_value max_swap max_threads = do
    let device = value_or [] (try_get_value (codes "nvme_device_path"))
    let backend = value_or [] (try_get_value (codes "backend"))
    let meta = value_or [] (try_get_value (codes "meta"))
    let use_fdp_str = value_or (codes "off") (try_get_value (codes "use_fdp"))
    let fdp_mapping_str = value_or [] (try_get_value (codes "fdp_mapping"))
    let db_configs_str = value_or [] (try_get_value (codes "db_configs"))
    let default_db_size_str = value_or (codes "20GB") (try_get_value (codes "default_db_size"))
    set_options device backend meta fdp_mapping_str use_fdp_str db_configs_str
    load_lists fdp_mapping_str db_configs_str (remove_whitespace default_db_size_str) (record {
      device_path = device;
      backend = sanatize_backend backend;
      meta = meta;
      max_temp_size = elim max_swap [ none ↦ 200 * 2 ^ 30 | some n ↦ n ];
      max_wal_size = 2 ^ 25;
      max_threads = max_threads;
      use_fdp = parse_use_fdp use_fdp_str;
      fdp_mapping = [];
      db_configs = [];
      default_db_size = 0;
    })

  unfoldable pub load_config :
      Option Secret → (max_swap : Option ℕ) → (max_threads : ℕ) → Cmd Settings NvmeConfig
  load_config none max_swap max_threads = throw no_secret
  load_config (some secret) max_swap max_threads =
      if not (str_eq secret.type (codes "nvmefs"))
      then throw wrong_secret_type
      else load_secret secret.try_get_value max_swap max_threads
