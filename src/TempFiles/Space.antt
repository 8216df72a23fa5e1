-- ===== src/TempFiles/Space.antt =====
-- What consistency means for the files: their blocks are apart, and all come back.
use mathlib.Core.Option.{some-injective}
use nvmefs.Prelude.{
  ℕ, ◌+◌, ◌-◌, ◌/◌, ◌^◌, ◌<◌, ◌≤◌, ◌≡◌, ◌≢◌, refl, ◌⊎◌, inl, inr, true, List, [], ◌∷◌, Option, some,
  ==_refl, arith, length, All, Str, str_eq, str_eq_iff, lookup, nat_eq, string_eq, ok, ◌∙◌, sym,
  Bool-cases, ap, subst,
}
use nvmefs.BlockManager.Defs.{TemporaryBlock, new_manager}
use nvmefs.BlockManager.Used.{used_count, IsUsed-found, used-le-name}
use nvmefs.BlockManager.Invariant.{IsUsed, new_manager-IsValid}
use nvmefs.BlockManager.Space.{used-Disjoint, All-free-one}
use nvmefs.TempFiles.Defs.{
  TempFileMetadata, TempManager, Pool, new_temp_manager, truncate_file, with_file, store_result,
  clear,
}
use nvmefs.TempFiles.Counts.{map_count, owned_count, map_count_found, map-le-owned}
use nvmefs.TempFiles.Release.{in_use, IsDense, truncate_blocks-Drains}
use nvmefs.TempFiles.Consistent.{
  IsConsistent, Operation, IsAllowed, after, after-IsConsistent, owned_bound, clear-IsConsistent,
}

pub new_temp_manager-IsConsistent :
    (bytes peak_bytes active peak start end lba_size : ℕ)
    → start + 56 < end
    → end < 2 ^ 64
    → IsConsistent (new_temp_manager bytes peak_bytes active peak start end lba_size)
unfolding new_temp_manager owned_count new_manager used_count
new_temp_manager-IsConsistent bytes peak_bytes active peak start end lba_size h k = record {
  valid = new_manager-IsValid bytes peak_bytes start end h k;
  owned = λ z. ground arith;
}

abbrev pub after_all : (Str → Option ℕ) → List Operation → TempManager → TempManager
after_all stoi [] s = s
after_all stoi (op ∷ ops) s = after_all stoi ops (after stoi op s)

pub after_all-IsConsistent :
    (stoi : Str → Option ℕ) (ops : List Operation) (s : TempManager)
    → IsConsistent s
    → All IsAllowed ops
    → IsConsistent (after_all stoi ops s)
after_all-IsConsistent stoi [] s v h = v
after_all-IsConsistent stoi (op ∷ ops) s v h =
    after_all-IsConsistent stoi ops (after stoi op s) (after-IsConsistent stoi op s v h.0) h.1

-- Two different indices of a map with one name count it twice.
map_count_twice :
    (i j x : ℕ) (m : List (ℕ × ℕ))
    → i ≢ j
    → lookup i m ≡ some x
    → lookup j m ≡ some x
    → 2 ≤ map_count x m
unfolding map_count lookup
map_count_twice i j x [] ne e f = cc
map_count_twice i j x ((k, y) ∷ m) ne e f =
    ground (arith, map_count_twice i j x m, map_count_found i x m, map_count_found j x m)

owned_twice :
    (x : ℕ) (f g : Str) (tf tg : TempFileMetadata) (fs : List (Str × TempFileMetadata))
    → f ≢ g
    → lookup f fs ≡ some tf
    → lookup g fs ≡ some tg
    → map_count x tf.block_map + map_count x tg.block_map ≤ owned_count x fs
unfolding owned_count lookup
owned_twice x f g tf tg [] ne e k = cc
owned_twice x f g tf tg ((h, w) ∷ fs) ne e k = ground (
  arith,
  str_eq_iff h f,
  str_eq_iff h g,
  owned_twice x f g tf tg fs,
  map-le-owned x f tf fs,
  map-le-owned x g tg fs,
)

-- In the manager that any sequence of calls, none of them for a block of no LBAs, leaves of a fresh
-- one whose area has more than 56 LBAs and ends at a word: the blocks that two files have, or one
-- file at two indices, are blocks in use that share no LBA.
pub files-Disjoint :
    (stoi : Str → Option ℕ) (ops : List Operation)
    (bytes peak_bytes active peak start end lba_size : ℕ)
    → start + 56 < end
    → end < 2 ^ 64
    → All IsAllowed ops
    → (s : TempManager)
    → s ≡ after_all stoi ops (new_temp_manager bytes peak_bytes active peak start end lba_size)
    → (f g : Str) (tf tg : TempFileMetadata) (i j x y : ℕ) → (f ≢ g) ⊎ (i ≢ j)
    → lookup f s.files ≡ some tf
    → lookup g s.files ≡ some tg
    → lookup i tf.block_map ≡ some x
    → lookup j tg.block_map ≡ some y
    → (b : TemporaryBlock) × (c : TemporaryBlock) × IsUsed s.pool.block_manager x b
      × IsUsed s.pool.block_manager y c
      × ((b.start_lba + b.lba_count ≤ c.start_lba) ⊎ (c.start_lba + c.lba_count ≤ b.start_lba))
files-Disjoint stoi ops bytes peak_bytes active peak start end lba_size h k allowed s reached f g tf
      tg i j x y ne ef eg ei ej =
    let v = consistent in
    let (b, ub) = IsUsed-found s.pool.block_manager v.valid x (
      omega
        (arith, v.owned x, map_count_found i x tf.block_map ei, map-le-owned x f tf s.files ef)) in
    let (c, uc) = IsUsed-found s.pool.block_manager v.valid y (
      omega
        (arith, v.owned y, map_count_found j y tg.block_map ej, map-le-owned y g tg s.files eg)) in
    (b, c, ub, uc, (used-Disjoint s.pool.block_manager x y b c v.valid (apart v ne) ub uc).0)
  where
    consistent : IsConsistent s
    consistent = rw reached (
        after_all-IsConsistent stoi ops _
          (new_temp_manager-IsConsistent bytes peak_bytes active peak start end lba_size h k)
          allowed)

    twice : IsConsistent s → (f ≢ g) → x ≢ y
    twice v files e = absurd (
        omega (
          arith,
          v.owned x,
          v.valid.unique x,
          used-le-name x s.pool.block_manager.blocks,
          owned_twice x f g tf tg s.files files ef eg,
          map_count_found i x tf.block_map ei,
          map_count_found j x tg.block_map (rw e ej),
        ))

    same_file : IsConsistent s → (i ≢ j) → f ≡ g → x ≢ y
    same_file v indices same e =
        let one : tf ≡ tg = some-injective tf tg (sym ef ∙ ap (λ h. lookup h s.files) same ∙ eg) in
        absurd (
          omega (
            arith,
            v.owned x,
            v.valid.unique x,
            used-le-name x s.pool.block_manager.blocks,
            map-le-owned x f tf s.files ef,
            map_count_twice i j x tf.block_map indices ei (rw (one, e) ej),
          ))

    apart : IsConsistent s → (f ≢ g) ⊎ (i ≢ j) → x ≢ y
    apart v (inl files) = twice v files
    apart v (inr indices) = elim (Bool-cases (str_eq f g)) [
      | inl same ↦ same_file v indices ((str_eq_iff f g).0 same)
      | inr other ↦ twice v (λ e. ground (arith, (str_eq_iff f g).1 e))
    ]

all_free :
    (bs : List TemporaryBlock) → ((z : ℕ) → used_count z bs ≡ 0) → All (λ b. b.is_free ≡ true) bs
unfolding used_count
all_free [] h = tt
all_free (b ∷ bs) h =
    (ground (arith, h b.name, ==_refl b.name), all_free bs (λ z. omega (arith, h z)))

module _ (s : TempManager) (v : IsConsistent s) where
  -- From a consistent manager whose area is not empty Clear returns, and leaves no file and a single
  -- block, which is free and the whole area.
  pub clear-one :
      s.pool.block_manager.allocated_start_lba < s.pool.block_manager.allocated_end_lba
      → (t : TempManager) × (b : TemporaryBlock) × (clear s ≡ ok tt t)
        × (t.files ≡ [])
        × (t.pool.block_manager.blocks ≡ b ∷ [])
        × (b.is_free ≡ true)
        × (b.start_lba ≡ s.pool.block_manager.allocated_start_lba)
        × (b.lba_count
            ≡ s.pool.block_manager.allocated_end_lba - s.pool.block_manager.allocated_start_lba)
  unfolding owned_count
  clear-one h =
      let (q, e, w, a) = clear-IsConsistent s v in
      let free = all_free q.block_manager.blocks (λ z. sym (w.owned z)) in
      let (b, one, start, count) =
        All-free-one q.block_manager w.valid (omega (arith, a.0, a.1)) free in
      (
        record s { pool = q; files = []; active_temp_files = 0 },
        b,
        e,
        refl,
        one,
        (subst (All (λ c. c.is_free ≡ true)) one free).0,
        start ∙ a.0,
        count ∙ rw (a.0, a.1) refl,
      )

  -- From a consistent manager, TruncateFile of a file that has a block at every index below its
  -- number of blocks returns, and leaves the file with the blocks that it had at every index below
  -- the new size, as many less as there were from the new size on, and these go back to the
  -- allocator.
  pub truncate_file-returns :
      (f : Str) (tf : TempFileMetadata) (size : ℕ)
      → lookup f s.files ≡ some tf
      → IsDense (length tf.block_map) tf.block_map
      → (m : List (ℕ × ℕ)) × (q : Pool) × (truncate_file f size s ≡ ok tt (with_file f tf m q s))
        × (length m + (length tf.block_map - size / tf.block_size) ≡ length tf.block_map)
        × ((i : ℕ) → i < size / tf.block_size → lookup i m ≡ lookup i tf.block_map)
        × ((z : ℕ) → map_count z tf.block_map + in_use z q ≡ map_count z m + in_use z s.pool)
  unfolding truncate_file store_result
  truncate_file-returns f tf size found dense =
      let (m, q, e, w, c, n, low, a) =
        truncate_blocks-Drains (size / tf.block_size) (length tf.block_map) tf.block_map s.pool
          v.valid (owned_bound s v f tf found) dense in
      (m, q, rw (found, truncate_file) (rw e refl), n, low, c)
