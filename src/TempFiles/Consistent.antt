-- ===== src/TempFiles/Consistent.antt =====
-- The block maps of the temporary files hold exactly the blocks in use.
use nvmefs.Prelude.{
  ℕ, ◌/◌, ◌<◌, ◌≤◌, ◌≡◌, refl, ◌⊎◌, inl, inr, List, [], Option, some, none, ◌==◌, arith, Str,
  lookup, nat_eq, string_eq, ok, err, Run, Bool-cases, Option-cases, final, and_then, Error,
}
use nvmefs.BlockManager.Invariant.{IsValid}
use nvmefs.TempFiles.Defs.{
  TempFileMetadata, TempManager, Pool, create_temp_file_metadata, get_or_create_file, create_file,
  with_file, add_file, store_result, get_buffer_size, size_text, index_text, get_lba, truncate_file,
  delete_file, clear,
}
use nvmefs.TempFiles.Counts.{
  map_count, owned_count, owned_count-insert_sorted, owned_count-insert, owned_count-erase,
  map-le-owned,
}
use nvmefs.TempFiles.Balance.{
  Balanced, Located, full, located, truncate_blocks-Balanced, block_at-Located,
}
use nvmefs.TempFiles.Release.{in_use, SameArea, release_all-Drains, release_files-Drains}

-- Each block in use stands exactly once in the block maps, and nothing else stands there.
pub record IsConsistent (s : TempManager) : Type 0 where
  pub valid : IsValid s.pool.block_manager
  pub owned : (z : ℕ) → owned_count z s.files ≡ in_use z s.pool

module _ (s : TempManager) (v : IsConsistent s) (filename : Str) (tf : TempFileMetadata)
    (found : lookup filename s.files ≡ some tf) where
  with_file-IsConsistent :
      (m : List (ℕ × ℕ)) (q : Pool)
      → Balanced (tf.block_map, s.pool) (m, q)
      → IsConsistent (with_file filename tf m q s)
  with_file-IsConsistent m q b = record {
    valid = b.0;
    owned = λ z. omega (
      arith,
      b.1 z,
      v.owned z,
      owned_count-insert z filename tf (record tf { block_map = m }) s.files found,
    );
  }

  pub owned_bound : (z : ℕ) → map_count z tf.block_map ≤ in_use z s.pool
  owned_bound z = omega (arith, v.owned z, map-le-owned z filename tf s.files found)

-- The calls that change the manager.
pub data Operation : Type 0 where
  creating : (filename : Str) → Operation
  locating : (filename : Str) (location nr_lbas : ℕ) → Operation
  truncating : (filename : Str) (new_size : ℕ) → Operation
  deleting : (filename : Str) → Operation
  clearing : Operation

-- No caller asks for a block of no LBAs.
abbrev pub IsAllowed : Operation → Type 0
IsAllowed (locating filename location nr_lbas) = 0 < nr_lbas
IsAllowed _ = Unit

-- The manager after a call, whether it returns or throws.
unfoldable pub after : (Str → Option ℕ) → Operation → TempManager → TempManager
after stoi (creating filename) s = final (create_file stoi filename s)
after stoi (locating filename location nr_lbas) s = final (get_lba filename location nr_lbas s)
after stoi (truncating filename new_size) s = final (truncate_file filename new_size s)
after stoi (deleting filename) s = final (delete_file filename s)
after stoi clearing s = final (clear s)

abbrev without_result : Run TempManager TempFileMetadata → Run TempManager (Unit {0})
without_result r = and_then r (λ tf t. ok tt t)

abbrev HasNoBlocks : Error ⊎ TempFileMetadata → Type 0
HasNoBlocks (inl e) = Unit
HasNoBlocks (inr tf) = tf.block_map ≡ []

create-HasNoBlocks :
    (stoi : Str → Option ℕ) (f : Str) → HasNoBlocks (create_temp_file_metadata stoi f)
unfolding create_temp_file_metadata
create-HasNoBlocks stoi f = elim (Option-cases (get_buffer_size (size_text f))) [
  | inl e ↦ rw (e, create_temp_file_metadata) tt
  | inr (size, e) ↦
      rw (e, create_temp_file_metadata)
        (elim (Option-cases (stoi (index_text f))) [
          | inl bad ↦ rw (bad, create_temp_file_metadata) tt
          | inr (index, good) ↦ rw (good, create_temp_file_metadata) refl
        ])
]

module _ (s : TempManager) (v : IsConsistent s) (f : Str) where
  add_file-IsConsistent :
      (r : Error ⊎ TempFileMetadata)
      → HasNoBlocks r
      → lookup f s.files ≡ none
      → IsConsistent (final (add_file f s r))
  unfolding add_file map_count
  add_file-IsConsistent (inl e) h free = v
  add_file-IsConsistent (inr tf) h free = record {
    valid = v.valid;
    owned = λ z.
        let none_owned : map_count z tf.block_map ≡ 0 = rw h refl in
        omega (arith, v.owned z, none_owned, owned_count-insert_sorted z f tf s.files free);
  }

  create-IsConsistent : (stoi : Str → Option ℕ) → IsConsistent (final (create_file stoi f s))
  unfolding create_file get_or_create_file
  create-IsConsistent stoi = elim (Option-cases (lookup f s.files)) [
    | inr (tf, found) ↦ rw (found, get_or_create_file) v
    | inl free ↦
        rw (free, get_or_create_file)
          (kept (add_file f s (create_temp_file_metadata stoi f))
            (add_file-IsConsistent _ (create-HasNoBlocks stoi f) free))
  ]
    where
      kept :
          (r : Run TempManager TempFileMetadata)
          → IsConsistent (final r)
          → IsConsistent (final (without_result r))
      kept (ok tf t) w = w
      kept (err e t) w = w

  stored-IsConsistent {ℓ} :
      {A : Type ℓ} (tf : TempFileMetadata) (r : Run (List (ℕ × ℕ) × Pool) A)
      → lookup f s.files ≡ some tf
      → Balanced (tf.block_map, s.pool) (final r)
      → IsConsistent (final (store_result f tf s r))
  unfolding store_result
  stored-IsConsistent tf (ok a (m, q)) found b = with_file-IsConsistent s v f tf found m q b
  stored-IsConsistent tf (err e (m, q)) found b = with_file-IsConsistent s v f tf found m q b

  locate-IsConsistent : (location n : ℕ) → 0 < n → IsConsistent (final (get_lba f location n s))
  unfolding get_lba
  locate-IsConsistent location n pos = elim (Option-cases (lookup f s.files)) [
    | inl e ↦ rw (e, get_lba) v
    | inr (tf, found) ↦
        rw (found, get_lba)
          (elim (Bool-cases (n == (tf.block_size / s.lba_size))) [
            | inr e ↦ rw e v
            | inl e ↦ rw e (
                stored-IsConsistent tf _ found (
                  Located-Balanced _ v.valid (
                    block_at-Located (location / tf.block_size) n tf.block_map s.pool v.valid
                      (owned_bound s v f tf found) pos)))
          ])
  ]
    where
      Located-Balanced :
          {i n : ℕ} {m : List (ℕ × ℕ)} {p : Pool} (r : Run (List (ℕ × ℕ) × Pool) ℕ)
          → IsValid p.block_manager
          → Located i n m p r
          → Balanced (m, p) (final r)
      Located-Balanced r w (full e empty) = (w, (λ z. refl), (refl, refl))
      Located-Balanced r w (located b e u k o) = b

  truncate-IsConsistent : (size : ℕ) → IsConsistent (final (truncate_file f size s))
  unfolding truncate_file
  truncate-IsConsistent size = elim (Option-cases (lookup f s.files)) [
    | inl e ↦ rw (e, truncate_file) v
    | inr (tf, found) ↦
        rw (found, truncate_file)
          (stored-IsConsistent tf _ found
            (truncate_blocks-Balanced _ _ tf.block_map s.pool v.valid (owned_bound s v f tf found)))
  ]

  delete-IsConsistent : IsConsistent (final (delete_file f s))
  unfolding delete_file
  delete-IsConsistent = elim (Option-cases (lookup f s.files)) [
    | inl e ↦ rw (e, delete_file) v
    | inr (tf, found) ↦
        let (q, e, w, n, a) =
          release_all-Drains tf.block_map s.pool v.valid (owned_bound s v f tf found) in
        rw (found, delete_file)
          (rw (e, delete_file)
            (record {
              valid = w;
              owned = λ z. omega (arith, v.owned z, n z, owned_count-erase z f tf s.files found);
            }))
  ]

pub clear-IsConsistent :
    (s : TempManager)
    → IsConsistent s
    → (q : Pool) × (clear s ≡ ok tt (record s { pool = q; files = []; active_temp_files = 0 }))
      × IsConsistent (record s { pool = q; files = []; active_temp_files = 0 })
      × SameArea q.block_manager s.pool.block_manager
unfolding clear owned_count
clear-IsConsistent s v =
    let (q, e, w, n, a) =
      release_files-Drains s.files s.pool v.valid (λ z. omega (arith, v.owned z)) in
    (q, rw (e, clear) refl, record { valid = w; owned = λ z. omega (arith, n z, v.owned z) }, a)

-- From a manager whose block maps hold exactly the blocks in use, each name once, every call leads to
-- one, whether it returns or throws, if it does not ask for a block of no LBAs.
pub after-IsConsistent :
    (stoi : Str → Option ℕ) (op : Operation) (s : TempManager)
    → IsConsistent s
    → IsAllowed op
    → IsConsistent (after stoi op s)
unfolding after
after-IsConsistent stoi (creating f) s v h = create-IsConsistent s v f stoi
after-IsConsistent stoi (locating f location n) s v h = locate-IsConsistent s v f location n h
after-IsConsistent stoi (truncating f size) s v h = truncate-IsConsistent s v f size
after-IsConsistent stoi (deleting f) s v h = delete-IsConsistent s v f
after-IsConsistent stoi clearing s v h =
    let (q, e, w, a) = clear-IsConsistent s v in rw (e, after) w
