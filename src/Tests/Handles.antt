-- ===== src/Tests/Handles.antt =====
-- Two databases with handles of their own, and a buffer that is reused.
use nvmefs.Prelude.{
  ℕ, ◌+◌, ◌≤◌, ◌≡◌, ◌==◌, List, [], ◌∷◌, some, arith, All, Str, codes, lookup, nat_eq, length,
  if◌then◌else◌,
}
use nvmefs.Device.Placement.{initialize_placement_handles}
use nvmefs.Device.Handles.{IsPlaced, initialize_placement_handles-IsPlaced}
use nvmefs.Device.Buffers.{
  BufferAllocator, allocate_buffer, free_buffer, flush, freed, count_of, free_buffer-counts,
  allocate_buffer-free_buffer,
}

abbrev configured : List (Str × ℕ)
configured = (codes "a.db", 3) ∷ (codes "a.wal", 1) ∷ (codes ".tmp", 3) ∷ []

initialize_placement_handles-IsPlaced_example :
    IsPlaced 0 (initialize_placement_handles configured)
    × All (λ x. IsPlaced x.1 (initialize_placement_handles configured)) configured
    × ((h k p : ℕ)
        → lookup h (initialize_placement_handles configured) ≡ some p
        → lookup k (initialize_placement_handles configured) ≡ some p
        → h ≡ k)
initialize_placement_handles-IsPlaced_example = initialize_placement_handles-IsPlaced configured

abbrev one_cached : BufferAllocator
one_cached = record { cache = 7 ∷ []; calls = [] }

free_buffer-counts_example :
    ((c : ℕ)
      → count_of c (free_buffer 9 262144 one_cached).cache
          + count_of c (freed (free_buffer 9 262144 one_cached).calls)
        ≡ (if 9 == c then 1 else 0)
          + (count_of c one_cached.cache + count_of c (freed one_cached.calls)))
    × (length (free_buffer 9 262144 one_cached).cache ≤ 32)
    × ((flush one_cached).cache ≡ [])
    × ((c : ℕ)
        → count_of c (freed (flush one_cached).calls)
          ≡ count_of c one_cached.cache + count_of c (freed one_cached.calls))
free_buffer-counts_example = free_buffer-counts 9 262144 one_cached (λ e. omega arith) (omega arith)

allocate_buffer-free_buffer_example :
    allocate_buffer (λ calls size. 5) 262144 (free_buffer 9 262144 one_cached) ≡ (9, one_cached)
allocate_buffer-free_buffer_example =
    allocate_buffer-free_buffer (λ calls size. 5) 9 one_cached (λ e. omega arith) (omega arith)
