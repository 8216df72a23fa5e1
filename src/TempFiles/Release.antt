-- ===== src/TempFiles/Release.antt =====
-- Giving blocks back: with the names of blocks in use, every loop that does returns.
use nvmefs.Prelude.{
  ℕ, zero, suc, ◌+◌, ◌-◌, ◌<◌, ◌≤◌, ◌≡◌, refl, List, [], ◌∷◌, some, ◌==◌, ==_iff, ltb, arith,
  length, Str, lookup, erase, lookup-erase_other, length-erase, nat_eq, string_eq, ok, Run, ◌∙◌,
  Bool-cases, inl, inr, ==_refl,
}
use nvmefs.BlockManager.Defs.{Manager}
use nvmefs.BlockManager.Counts.{one_if}
use nvmefs.BlockManager.Used.{used_count, IsUsed-found}
use nvmefs.BlockManager.Invariant.{IsValid}
use nvmefs.BlockManager.Free.{free_block-IsValid}
use nvmefs.TempFiles.Defs.{
  TempFileMetadata, Pool, release, release_all, release_files, truncate_blocks, dsm_range,
}
use nvmefs.TempFiles.Counts.{map_count, owned_count, map_count-erase, map_count_found}

-- The names in use in a pool.
abbrev pub in_use : ℕ → Pool → ℕ
in_use z p = used_count z p.block_manager.blocks

abbrev pub SameArea : Manager → Manager → Type 0
SameArea m n =
    (m.allocated_start_lba ≡ n.allocated_start_lba) × (m.allocated_end_lba ≡ n.allocated_end_lba)

-- A run returns, and leaves a valid allocator over the same area in which `count` names less are in
-- use.
abbrev pub Drains : (ℕ → ℕ) → Pool → Run Pool (Unit {0}) → Type 0
Drains count p r =
    (q : Pool) × (r ≡ ok tt q)
    × IsValid q.block_manager
    × ((z : ℕ) → count z + in_use z q ≡ in_use z p)
    × SameArea q.block_manager p.block_manager

pub release-Drains :
    (x : ℕ) (p : Pool)
    → IsValid p.block_manager
    → 0 < in_use x p
    → Drains (λ z. one_if (x == z)) p (release x p)
unfolding release
release-Drains x p v h =
    let (b, used) = IsUsed-found p.block_manager v x h in
    let (m, e, w, keeps, gone, start, end, counts) =
      free_block-IsValid p.block_manager v x b used in
    (
      record { block_manager = m; deallocated = dsm_range b ∷ p.deallocated },
      rw (used.found, release) (rw e refl),
      w,
      counts,
      (start, end),
    )

pub release_all-Drains :
    (kvs : List (ℕ × ℕ)) (p : Pool)
    → IsValid p.block_manager
    → ((z : ℕ) → map_count z kvs ≤ in_use z p)
    → Drains (λ z. map_count z kvs) p (release_all kvs p)
unfolding release_all map_count
release_all-Drains [] p v h = (p, refl, v, (λ z. omega arith), (refl, refl))
release_all-Drains ((i, x) ∷ kvs) p v h =
    let (q, e, w, n, a) = release-Drains x p v (ground (arith, h x, ==_refl x)) in
    let (q', e', w', n', a') = release_all-Drains kvs q w (λ z. omega (arith, h z, n z)) in
    (q', rw (e, e'), w', (λ z. omega (arith, n z, n' z)), (a'.0 ∙ a.0, a'.1 ∙ a.1))

pub release_files-Drains :
    (fs : List (Str × TempFileMetadata)) (p : Pool)
    → IsValid p.block_manager
    → ((z : ℕ) → owned_count z fs ≤ in_use z p)
    → Drains (λ z. owned_count z fs) p (release_files fs p)
unfolding release_files owned_count
release_files-Drains [] p v h = (p, refl, v, (λ z. omega arith), (refl, refl))
release_files-Drains ((f, tf) ∷ fs) p v h =
    let (q, e, w, n, a) = release_all-Drains tf.block_map p v (λ z. omega (arith, h z)) in
    let (q', e', w', n', a') = release_files-Drains fs q w (λ z. omega (arith, h z, n z)) in
    (q', rw (e, e'), w', (λ z. omega (arith, n z, n' z)), (a'.0 ∙ a.0, a'.1 ∙ a.1))

-- A block map has an entry at every index below `n`.
abbrev pub IsDense : ℕ → List (ℕ × ℕ) → Type 0
IsDense n m = (i : ℕ) → i < n → (x : ℕ) × (lookup i m ≡ some x)

-- A truncation of a map that is dense below `n` returns, keeps the indices below `to`, drops as many
-- as there are from `to` to `n`, and gives their blocks back.
pub truncate_blocks-Drains :
    (to n : ℕ) (m : List (ℕ × ℕ)) (p : Pool)
    → IsValid p.block_manager
    → ((z : ℕ) → map_count z m ≤ in_use z p)
    → IsDense n m
    → (m' : List (ℕ × ℕ)) × (q : Pool) × (truncate_blocks to n (m, p) ≡ ok tt (m', q))
      × IsValid q.block_manager
      × ((z : ℕ) → map_count z m + in_use z q ≡ map_count z m' + in_use z p)
      × (length m' + (n - to) ≡ length m)
      × ((i : ℕ) → i < to → lookup i m' ≡ lookup i m)
      × SameArea q.block_manager p.block_manager
unfolding truncate_blocks
truncate_blocks-Drains to zero m p v h d =
    (m, p, refl, v, (λ z. refl), omega arith, (λ i lt. refl), (refl, refl))
truncate_blocks-Drains to (suc n) m p v h d = elim (Bool-cases (ltb to (suc n))) [
  | inr stop ↦ (
    m,
    p,
    rw (stop, truncate_blocks) refl,
    v,
    (λ z. refl),
    ground arith,
    (λ i lt. refl),
    (refl, refl),
  )
  | inl more ↦
      let (x, found) = d n (omega arith) in
      let counted = map_count_found n x m found in
      let (q, e, w, c, a) = release-Drains x p v (omega (arith, counted, h x)) in
      let (m', q', e', w', c', size, low, a') =
        truncate_blocks-Drains to n (erase n m) q w
          (λ z. omega (arith, h z, c z, map_count-erase z n x m found))
          (λ i lt.
            let (y, f) = d i (omega arith) in
            (y, lookup-erase_other n i m (ground (arith, ==_iff n i)) ∙ f)) in
      (
        m',
        q',
        rw (more, truncate_blocks) (rw (found, truncate_blocks) (rw (e, truncate_blocks) e')),
        w',
        (λ z. omega (arith, c z, c' z, map_count-erase z n x m found)),
        ground (arith, size, length-erase n x m found),
        (λ i lt. low i lt ∙ lookup-erase_other n i m (ground (arith, ==_iff n i))),
        (a'.0 ∙ a.0, a'.1 ∙ a.1),
      )
]
