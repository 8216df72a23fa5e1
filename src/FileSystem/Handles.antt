-- ===== src/FileSystem/Handles.antt =====
-- What OpenFile gives for the files of a database that is open, and what its handles read and write.
use nvmefs.Prelude.{
  ℕ, ◌+◌, ◌-◌, ◌<◌, sym, List, length, get_or, within, final, ◌≡◌, refl, ◌∙◌, ap, ◌⊎◌, inl, inr,
  Bool, true, false, ◌&&◌, not, Option, none, some, if◌then◌else◌, Str, str_eq, lookup, string_eq,
  Error, Run, ok, err, not_nvme_device, throw_if, pure,
}
use nvmefs.Engine.Interface.{BlockDevice, IsFaithful}
use nvmefs.FileSystem.Metadata.{read_metadata, install_metadata, try_load_metadata}
use nvmefs.FileSystem.Open.{
  add_metrics, get_nvme_device, get_region_for_path, strategy_for, load_or_initialize,
  ensure_region, make_handle, open_file, is_temporary,
}
use nvmefs.FileSystem.Isolation.{file_byte, read_at-write_at}
use nvmefs.FileSystem.Parts.{part_strategy, IsAccess, IsOnDevice}
use nvmefs.FileSystem.Transfer.{read_at, write_at}
use nvmefs.FileSystem.State.{Setup, FileSystem, NvmeFileHandle, get_runtime_state, with_temp}
use nvmefs.Metadata.Defs.{DatabaseRegion, GlobalMetadata, find_region}
use nvmefs.PathHandler.Defs.{
  NvmeFileType, database, wal, global_metadata_path, get_file_type, extract_database_name,
}
use nvmefs.Strategy.Range.{Part, data_part, log_part}
use nvmefs.Strategy.Temporary.{
  FileStrategy, RuntimeState, temp_create_file, get_strategy, needs_region, strategy_of,
}

abbrev pub part_type : Part → NvmeFileType
part_type data_part = database
part_type log_part = wal

-- The handle of a file of a database.
abbrev pub part_handle : Str → Str → Part → DatabaseRegion → NvmeFileHandle
part_handle path name part r = record {
  path = path;
  file_type = some (part_type part);
  strategy = some (part_strategy r part name);
  op_state = some name;
  metrics_cache = some name;
  cursor_offset = 0;
}

-- A path of a file of a database: what the path handler makes of it.
pub record IsFileOf (e : Setup) (path name : Str) (part : Part) : Type 0 where
  pub other : str_eq path global_metadata_path ≡ false
  pub type : get_file_type e.util path ≡ part_type part
  pub named : extract_database_name e.util path ≡ name

module _ {d : BlockDevice} (e : Setup) (s : FileSystem d) (g : GlobalMetadata)
    (has : s.metadata ≡ some g) (name : Str) where
  loaded_already : try_load_metadata e s ≡ ok true s
  unfolding try_load_metadata
  loaded_already =
      ap
        (λ o. elim o as (λ _. Run (FileSystem d) Bool) [
          | some g' ↦ ok true s
          | none ↦ elim (read_metadata e s) as (λ _. Run (FileSystem d) Bool) [
            | err er t ↦ err er t
            | ok none t ↦ ok false t
            | ok (some g') t ↦ ok true (install_metadata e g' t)
          ]
        ])
        has

  region_found :
      (r : DatabaseRegion)
      → find_region name g.databases ≡ some r
      → get_region_for_path e name s ≡ some r
  unfolding get_region_for_path
  region_found r found =
      ap
        (λ o. elim o as (λ _. Option DatabaseRegion) [
          | none ↦ none
          | some g' ↦ find_region name g'.databases
        ])
        has
      ∙ found

  state_found :
      (st : RuntimeState)
      → lookup name s.active_dbs ≡ some st
      → get_runtime_state name s ≡ some name
  unfolding get_runtime_state
  state_found st opened = rw (opened, get_runtime_state) refl

  ensured :
      (part : Part) (r : DatabaseRegion) (create : Bool)
      → find_region name g.databases ≡ some r
      → ensure_region e (part_type part) name create s ≡ ok tt s
  unfolding ensure_region
  ensured part r create found = rw (region_found r found, ensure_region) refl

  -- The result of the factory, as a run.
  abbrev chosen : Error ⊎ FileStrategy → Run (FileSystem d) FileStrategy
  chosen (inl er) = err er s
  chosen (inr strategy) = ok strategy s

  strategy_chosen :
      (path : Str) (part : Part) (r : DatabaseRegion)
      → get_file_type e.util path ≡ part_type part
      → get_strategy e.util path (some r) (some name) ≡ inr (part_strategy r part name)
  unfolding get_strategy needs_region strategy_of
  strategy_chosen path data_part r type = rw (type, get_strategy) refl
  strategy_chosen path log_part r type = rw (type, get_strategy) refl

  strategy_found :
      (path : Str) (part : Part) (r : DatabaseRegion) (st : RuntimeState)
      → get_file_type e.util path ≡ part_type part
      → find_region name g.databases ≡ some r
      → lookup name s.active_dbs ≡ some st
      → strategy_for e path name s ≡ ok (part_strategy r part name) s
  unfolding strategy_for
  strategy_found path part r st type found opened =
      ap (λ o. chosen (get_strategy e.util path o (get_runtime_state name s)))
        (region_found r found)
      ∙ ap (λ o. chosen (get_strategy e.util path (some r) o)) (state_found st opened)
      ∙ ap chosen (strategy_chosen path part r type)

  nvme_checked : e.is_nvme ≡ true → get_nvme_device e s ≡ ok tt s
  unfolding get_nvme_device
  nvme_checked nvme = ap (λ b. throw_if {S = FileSystem d} (not b) not_nvme_device s) nvme

  made_handle :
      (path : Str) (part : Part) (r : DatabaseRegion) (st : RuntimeState)
      → lookup name s.active_dbs ≡ some st
      → make_handle e path name (part_type part) (part_strategy r part name) s
        ≡ ok (part_handle path name part r) (record s { metrics = add_metrics name s.metrics })
  unfolding make_handle
  made_handle path data_part r st opened = rw (state_found st opened, make_handle) refl
  made_handle path log_part r st opened = rw (state_found st opened, make_handle) refl

  -- No temporary file is made.
  not_created :
      (path : Str) (part : Part) (create : Bool)
      → (if create && is_temporary (part_type part)
          then with_temp {d = d} (temp_create_file e.stoi path)
          else pure tt)
        ≡ pure tt
  not_created path part false = refl
  not_created path data_part true = refl
  not_created path log_part true = refl

  -- OpenFile of a file of a database that is open.
  pub open_file-handle :
      (path : Str) (create : Bool) (part : Part) (r : DatabaseRegion) (st : RuntimeState)
      → e.is_nvme ≡ true
      → str_eq path global_metadata_path ≡ false
      → get_file_type e.util path ≡ part_type part
      → extract_database_name e.util path ≡ name
      → find_region name g.databases ≡ some r
      → lookup name s.active_dbs ≡ some st
      → open_file e path create s
        ≡ ok (part_handle path name part r) (record s { metrics = add_metrics name s.metrics })
  unfolding open_file load_or_initialize
  open_file-handle path create part r st nvme other type named found opened =
      rw (other, type, named)
        (rw (loaded_already, load_or_initialize)
          (rw (ensured part r create found) (
            rw (nvme_checked nvme) (
              rw (strategy_found path part r st type found opened)
                (rw (not_created path part create) (made_handle path part r st opened))))))

  -- What a handle that OpenFile returned is for, and what it changed.
  opened_handle :
      (path : Str) (create : Bool) (part : Part) (r : DatabaseRegion) (st : RuntimeState)
      (fh : NvmeFileHandle) (t : FileSystem d)
      → e.is_nvme ≡ true
      → IsFileOf e path name part
      → find_region name g.databases ≡ some r
      → lookup name s.active_dbs ≡ some st
      → open_file e path create s ≡ ok fh t
      → (fh.strategy ≡ some (part_strategy r part name))
        × (t ≡ record s { metrics = add_metrics name s.metrics })
  opened_handle path create part r st fh t nvme file found opened got =
      let same =
        sym got
        ∙ open_file-handle path create part r st nvme file.other file.type file.named found
            opened in
      (ap strategy_of_run same, ap final same)
    where
      strategy_of_run : Run (FileSystem d) NvmeFileHandle → Option FileStrategy
      strategy_of_run (ok h w) = h.strategy
      strategy_of_run (err er w) = none

module _ {d : BlockDevice} (e : Setup) (faithful : IsFaithful e.geometry d) (r : DatabaseRegion)
    (on : IsOnDevice e.geometry r) (part : Part) (name : Str) (s : FileSystem d)
    (g : GlobalMetadata) (has : s.metadata ≡ some g) (found : find_region name g.databases ≡ some r)
    (st : RuntimeState) (opened : lookup name s.active_dbs ≡ some st)
    (nvme : e.is_nvme ≡ true) where
  -- On a faithful device that is an NVMe device, with the metadata loaded, for a database that is open
  -- and has a region on the device: of two handles that OpenFile returns one after the other for paths
  -- of its data file, or for paths of its log, whatever their flags, the second reads what the first
  -- writes. For accesses of one byte or more, of at most 65535 blocks' bytes and with their end below
  -- 2^63: once a write through the first has returned, a read through the second that returns gives the
  -- bytes that were written where it meets them, and the bytes from before the calls elsewhere.
  pub read_at-write_at-open_file :
      (path path' : Str) (create create' : Bool) (fh fh' : NvmeFileHandle)
      (s1 s2 s3 s4 : FileSystem d) (src : List ℕ) (location nr_bytes from k : ℕ) (bs : List ℕ)
      → IsFileOf e path name part
      → IsFileOf e path' name part
      → open_file e path create s ≡ ok fh s1
      → open_file e path' create' s1 ≡ ok fh' s2
      → IsAccess e.geometry (length src) location
      → write_at e fh src location s2 ≡ ok tt s3
      → IsAccess e.geometry nr_bytes from
      → read_at e fh' nr_bytes from s3 ≡ ok bs s4
      → k < nr_bytes
      → (length bs ≡ nr_bytes)
        × (get_or bs k 0 ≡ (
            if within location (length src) (from + k)
            then get_or src (from + k - location) 0
            else file_byte e r part s (from + k)))
  read_at-write_at-open_file path path' create create' fh fh' s1 s2 s3 s4 src location nr_bytes from
        k bs file file' first second access wrote access' read lt =
      let (uses, one) =
        opened_handle e s g has name path create part r st fh s1 nvme file found opened first in
      let has1 : s1.metadata ≡ some g = ap (λ t. t.metadata) one ∙ has in
      let opened1 : lookup name s1.active_dbs ≡ some st =
        ap (λ t. lookup name t.active_dbs) one ∙ opened in
      let (uses', two) =
        opened_handle e s1 g has1 name path' create' part r st fh' s2 nvme file' found opened1
          second in
      let opened2 : lookup name s2.active_dbs ≡ some st =
        ap (λ t. lookup name t.active_dbs) two ∙ opened1 in
      let same : file_byte e r part s2 (from + k) ≡ file_byte e r part s (from + k) =
        ap (λ t. file_byte e r part t (from + k)) two
        ∙ ap (λ t. file_byte e r part t (from + k)) one in
      let (size, byte) =
        read_at-write_at e faithful r on part name fh uses s2 src st opened2 location access s3 s4
          fh' nr_bytes from k bs uses' wrote access' read lt in
      (
        size,
        byte
            ∙ ap
                (λ b.
                  if within location (length src) (from + k)
                  then get_or src (from + k - location) 0
                  else b)
                same,
      )
