-- ===== src/Device/Placement.antt =====
-- src/nvme_device.cpp: the reclaim unit handle of a file, the placement handles and the words of a
-- command that carry them, and the options of a backend.
use nvmefs.Prelude.{
  ℕ, suc, ◌+◌, ◌*◌, ◌%◌, ◌^◌, Bool, true, false, ◌&&◌, List, [], ◌∷◌, Option, none, some, ◌==◌, ltb,
  if◌then◌else◌, Str, codes, str_eq, lookup, insert_sorted, nat_eq, string_eq, sub64, ◌++◌,
}
use nvmefs.PathHandler.Defs.{
  StringUtil, database, wal, temporary, global_metadata, unknown, get_file_type,
  extract_database_name, db_suffix, wal_suffix,
}

abbrev pub tmp_suffix : Str
tmp_suffix = codes ".tmp"

-- The handle of a suffix, 0 when the map has none; a uint16_t is returned as a uint8_t.
unfoldable pub suffix_handle : List (Str × ℕ) → Str → ℕ
suffix_handle ruhs suffix = elim (lookup suffix ruhs) [ none ↦ 0 | some h ↦ h % 2 ^ 8 ]

-- The handle of the file of a database, and else that of its suffix.
unfoldable pub database_handle : List (Str × ℕ) → Str → Str → ℕ
database_handle ruhs name suffix = elim name [
  | [] ↦ suffix_handle ruhs suffix
  | c ∷ cs ↦ elim (lookup ((c ∷ cs) ++ suffix) ruhs) [
    | none ↦ suffix_handle ruhs suffix
    | some h ↦ h % 2 ^ 8
  ]
]

unfoldable pub get_reclaim_unit_handle_or_default : StringUtil → List (Str × ℕ) → Str → ℕ
get_reclaim_unit_handle_or_default u ruhs path = elim (get_file_type u path) [
  | database ↦ database_handle ruhs (extract_database_name u path) db_suffix
  | wal ↦ database_handle ruhs (extract_database_name u path) wal_suffix
  | temporary ↦ suffix_handle ruhs tmp_suffix
  | global_metadata ↦ 0
  | unknown ↦ 0
]

-- std::set<uint16_t>: its members in their order.
unfoldable pub insert_ruh : ℕ → List ℕ → List ℕ
insert_ruh h [] = h ∷ []
insert_ruh h (k ∷ ks) =
    if ltb h k then h ∷ k ∷ ks else if h == k then k ∷ ks else k ∷ insert_ruh h ks

unfoldable pub sorted_ruhs : List (Str × ℕ) → List ℕ → List ℕ
sorted_ruhs [] set = set
sorted_ruhs ((name, h) ∷ ruhs) set = sorted_ruhs ruhs (insert_ruh h set)

unfoldable pub has_zero : List ℕ → Bool
has_zero [] = false
has_zero (k ∷ ks) = if k == 0 then true else has_zero ks

-- The loop of InitializePlacementHandles: map::emplace keeps an entry that is there.
unfoldable pub number_handles : (count : ℕ) → List ℕ → List (ℕ × ℕ) → List (ℕ × ℕ)
number_handles count [] phids = phids
number_handles count (h ∷ hs) phids = elim (lookup h phids) [
  | none ↦ number_handles (suc count) hs (insert_sorted ltb h count phids)
  | some phid ↦ number_handles (suc count) hs phids
]

unfoldable pub initialize_placement_handles : List (Str × ℕ) → List (ℕ × ℕ)
initialize_placement_handles ruhs =
    let set = sorted_ruhs ruhs [] in
    if has_zero set then number_handles 0 set [] else number_handles 1 set ((0, 0) ∷ [])

abbrev pub data_placement_mode : ℕ
data_placement_mode = 2

-- The command words cdw12 and cdw13 that PrepareIOCmdContext writes, over what cdw13 held. The count
-- is a uint16_t of the blocks minus one, and the placement type stands in the bits from 20 on.
unfoldable pub prepare_io_cmd_context :
    (use_fdp : Bool) → List (ℕ × ℕ) → (nr_lbas ruh dtype : ℕ) → (write : Bool) → (cdw13 : ℕ) → ℕ × ℕ
prepare_io_cmd_context use_fdp phids nr_lbas ruh dtype write cdw13 =
    let count = sub64 nr_lbas 1 % 2 ^ 16 in
    if write && use_fdp
    then (
      (count + dtype * 2 ^ 20) % 2 ^ 32,
      elim (lookup ruh phids) [ none ↦ 0 | some phid ↦ phid * 2 ^ 16 % 2 ^ 32 ],
    )
    else (count, cdw13)

-- xnvme_opts, as far as PrepareOpts writes it; `none` is a field that it leaves alone.
pub record Opts : Type 0 where
  pub be : Option Str
  pub async : Option Str
  pub sync : Option Str

unfoldable pub prepare_opts : StringUtil → (backend : Str) → Opts → Opts
prepare_opts u backend opts =
    if u.contains backend (codes "spdk")
    then record opts { be = some (codes "spdk") }
    else if str_eq backend (codes "io_uring_cmd")
    then record opts { async = some backend; sync = some (codes "nvme") }
    else record opts { async = some backend }
