-- ===== src/TempFiles/Balance.antt =====
-- What GetLBA and TruncateFile do to the block map of a file and to the allocator.
use mathlib.Core.Option.{some-injective}
use nvmefs.Prelude.{
  ℕ, zero, suc, ◌+◌, ◌<◌, ◌≤◌, ◌≡◌, refl, inl, inr, false, sym, List, some, none, ◌==◌, ltb, arith,
  lookup, erase, nat_eq, string_eq, ok, err, Run, ◌∙◌, Bool-cases, Option-cases, final,
  no_free_block, ==_refl, lookup-insert_sorted,
}
use nvmefs.BlockManager.Defs.{Manager, TemporaryBlock}
use nvmefs.BlockManager.Used.{IsUsed-found}
use nvmefs.BlockManager.Invariant.{IsValid, IsUsed}
use nvmefs.BlockManager.Allocate.{HasNone, Outcome, exhausted, allocated, allocate_block-Outcome}
use nvmefs.TempFiles.Defs.{Pool, block_at, place_block, truncate_blocks}
use nvmefs.TempFiles.Counts.{map_count, map_count-erase, map_count_found, map_count-insert_sorted}
use nvmefs.TempFiles.Release.{in_use, SameArea, release-Drains}

-- An operation on one block map gives the allocator back what it takes from the map.
abbrev pub Balanced : List (ℕ × ℕ) × Pool → List (ℕ × ℕ) × Pool → Type 0
Balanced (m, p) (m', q) =
    IsValid q.block_manager
    × ((z : ℕ) → map_count z m + in_use z q ≡ map_count z m' + in_use z p)
    × SameArea q.block_manager p.block_manager

pub truncate_blocks-Balanced :
    (to n : ℕ) (m : List (ℕ × ℕ)) (p : Pool)
    → IsValid p.block_manager
    → ((z : ℕ) → map_count z m ≤ in_use z p)
    → Balanced (m, p) (final (truncate_blocks to n (m, p)))
unfolding truncate_blocks
truncate_blocks-Balanced to zero m p v h = (v, (λ z. refl), (refl, refl))
truncate_blocks-Balanced to (suc n) m p v h = elim (Bool-cases (ltb to (suc n))) [
  | inr stop ↦ rw (stop, truncate_blocks) (v, (λ z. refl), (refl, refl))
  | inl more ↦
      rw (more, truncate_blocks)
        (elim (Option-cases (lookup n m)) [
          | inl gap ↦ rw (gap, truncate_blocks) (v, (λ z. refl), (refl, refl))
          | inr (x, found) ↦
              let counted = map_count_found n x m found in
              let (q, e, w, c, a) = release-Drains x p v (omega (arith, counted, h x)) in
              let rest =
                truncate_blocks-Balanced to n (erase n m) q w
                  (λ z. omega (arith, h z, c z, map_count-erase z n x m found)) in
              rw (found, truncate_blocks)
                (rw (e, truncate_blocks)
                  (
                    rest.0,
                    (λ z. omega (arith, c z, rest.1 z, map_count-erase z n x m found)),
                    (rest.2.0 ∙ a.0, rest.2.1 ∙ a.1),
                  ))
        ])
]

-- What GetLBA finds in a block map: the first LBA of a block in use that the map has at the index
-- from then on, the one that it had there if it had one, while the other indices keep theirs; or
-- every free list that could hold a block of the size is empty, and nothing changes.
pub data Located (index nr_lbas : ℕ) (m : List (ℕ × ℕ)) (p : Pool)
    : Run (List (ℕ × ℕ) × Pool) ℕ → Type 0 where
  full :
      lookup index m ≡ none
      → HasNone nr_lbas p.block_manager
      → Located index nr_lbas m p (err no_free_block (m, p))
  located :
      {m' : List (ℕ × ℕ)} {q : Pool} {x : ℕ} {b : TemporaryBlock}
      → Balanced (m, p) (m', q)
      → lookup index m' ≡ some x
      → IsUsed q.block_manager x b
      → ((y : ℕ) → lookup index m ≡ some y → y ≡ x)
      → ((i : ℕ) → (index == i) ≡ false → lookup i m' ≡ lookup i m)
      → Located index nr_lbas m p (ok b.start_lba (m', q))

place_block-Located :
    (index nr_lbas : ℕ) (m : List (ℕ × ℕ)) (p : Pool) (r : Run Manager ℕ)
    → lookup index m ≡ none
    → Outcome nr_lbas p.block_manager r
    → Located index nr_lbas m p (place_block index (m, p) r)
unfolding place_block
place_block-Located index nr_lbas m p r free (exhausted h) = full free h
place_block-Located index nr_lbas m p r free (allocated {y} a) =
    rw (a.used.found, place_block)
      (located
        (
          a.valid,
          (λ z. omega (arith, a.counts z, map_count-insert_sorted z index y m free)),
          a.area,
        )
        (lookup-insert_sorted ltb index index y m ∙ rw (==_refl index) refl) a.used
        (λ z e. absurd (none_there (sym free ∙ e)))
        (λ i ne. lookup-insert_sorted ltb index i y m ∙ rw ne refl))
  where
    none_there : {z : ℕ} → none ≡ some z → ⊥
    none_there e = cc

pub block_at-Located :
    (index nr_lbas : ℕ) (m : List (ℕ × ℕ)) (p : Pool)
    → IsValid p.block_manager
    → ((z : ℕ) → map_count z m ≤ in_use z p)
    → 0 < nr_lbas
    → Located index nr_lbas m p (block_at index nr_lbas (m, p))
unfolding block_at
block_at-Located index nr_lbas m p v h pos = elim (Option-cases (lookup index m)) [
  | inl free ↦
      rw (free, block_at)
        (place_block-Located index nr_lbas m p _ free
          (allocate_block-Outcome nr_lbas p.block_manager v pos))
  | inr (x, found) ↦
      let counted = map_count_found index x m found in
      let (b, used) = IsUsed-found p.block_manager v x (omega (arith, h x)) in
      rw (found, block_at)
        (rw (used.found, block_at)
          (located (v, (λ z. refl), (refl, refl)) found used
            (λ y e. some-injective y x (sym e ∙ found)) (λ i ne. refl)))
]
