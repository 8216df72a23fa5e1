-- ===== src/TempFiles/Locate.antt =====
-- GetLBA on every branch.
use nvmefs.Prelude.{
  ℕ, ◌/◌, ◌<◌, ◌≡◌, ◌≢◌, inl, inr, false, List, some, none, ◌==◌, arith, Str, lookup, nat_eq,
  string_eq, ok, err, Run, Bool-cases, no_free_block, block_size_mismatch,
}
use nvmefs.BlockManager.Defs.{TemporaryBlock}
use nvmefs.BlockManager.Allocate.{HasNone}
use nvmefs.BlockManager.Invariant.{IsUsed}
use nvmefs.TempFiles.Defs.{TempFileMetadata, TempManager, Pool, with_file, store_result, get_lba}
use nvmefs.TempFiles.Balance.{Located, full, located, block_at-Located}
use nvmefs.TempFiles.Consistent.{IsConsistent, owned_bound}

-- The results of GetLBA for a file `tf`.
pub data Addressed (f : Str) (tf : TempFileMetadata) (index n : ℕ) (s : TempManager)
    : Run TempManager ℕ → Type 0 where
  mismatch : n ≢ tf.block_size / s.lba_size → Addressed f tf index n s (err block_size_mismatch s)
  exhausted :
      n ≡ tf.block_size / s.lba_size
      → lookup index tf.block_map ≡ none
      → HasNone n s.pool.block_manager
      → Addressed f tf index n s (err no_free_block (with_file f tf tf.block_map s.pool s))
  addressed :
      (m : List (ℕ × ℕ)) (q : Pool) (x : ℕ) (b : TemporaryBlock)
      → n ≡ tf.block_size / s.lba_size
      → lookup index m ≡ some x
      → IsUsed q.block_manager x b
      → ((y : ℕ) → lookup index tf.block_map ≡ some y → y ≡ x)
      → ((i : ℕ) → (index == i) ≡ false → lookup i m ≡ lookup i tf.block_map)
      → Addressed f tf index n s (ok b.start_lba (with_file f tf m q s))

module _ (s : TempManager) (v : IsConsistent s) (f : Str) (tf : TempFileMetadata)
    (location n : ℕ) where
  stored-Addressed :
      (index : ℕ) (r : Run (List (ℕ × ℕ) × Pool) ℕ)
      → n ≡ tf.block_size / s.lba_size
      → Located index n tf.block_map s.pool r
      → Addressed f tf index n s (store_result f tf s r)
  unfolding store_result
  stored-Addressed index r e (full free empty) = exhausted e free empty
  stored-Addressed index r e (located {m'} {q} {x} {b} balance found used kept others) =
      addressed m' q x b e found used kept others

  -- From a consistent manager, for a file that is there and a count that is not 0, GetLBA throws if
  -- the count is not that of the file's blocks; throws, with the file's blocks and the allocator
  -- unchanged, only if the file has no block at the location and every free list that could hold one
  -- of the size is empty; and else returns the first LBA of a block in use that the file has at the
  -- location from then on, which is the one that it had there if it had one, its other blocks
  -- unchanged.
  pub get_lba-Addressed :
      lookup f s.files ≡ some tf
      → 0 < n
      → Addressed f tf (location / tf.block_size) n s (get_lba f location n s)
  unfolding get_lba
  get_lba-Addressed found pos =
      rw (found, get_lba)
        (elim (Bool-cases (n == (tf.block_size / s.lba_size))) [
          | inr e ↦ rw e (mismatch (λ h. ground arith))
          | inl e ↦ rw e (
              stored-Addressed (location / tf.block_size) _ (ground arith) (
                block_at-Located (location / tf.block_size) n tf.block_map s.pool v.valid
                  (owned_bound s v f tf found) pos))
        ])
