-- ===== src/Device/Buffers.antt =====
-- src/include/buffer_allocators/: the cached buffer allocator, for one thread. A buffer is a number, 0
-- the null pointer. What xnvme_buf_alloc gives is a parameter, a function of the calls before and of
-- the size; the calls of xnvme_buf_alloc and xnvme_buf_free are part of the state, the last one first.
use nvmefs.Prelude.{
  ℕ, ◌+◌, ◌≤◌, ◌<◌, ◌≡◌, ◌≢◌, refl, true, false, List, [], ◌∷◌, ltb, ◌==◌, if◌then◌else◌, arith,
  length,
}

abbrev pub buffer_cache_depth : ℕ
buffer_cache_depth = 32

abbrev pub duckdb_block_size : ℕ
duckdb_block_size = 262144

pub data BufferCall : Type 0 where
  buf_alloc : (size : ℕ) → BufferCall
  buf_free : (buffer : ℕ) → BufferCall

-- The cache, its top first.
pub record BufferAllocator : Type 0 where
  pub cache : List ℕ
  pub calls : List BufferCall

module _ (buf_alloc_result : List BufferCall → ℕ → ℕ) where
  -- xnvme_buf_alloc.
  unfoldable pub device_allocate : ℕ → BufferAllocator → ℕ × BufferAllocator
  device_allocate size s =
      (buf_alloc_result s.calls size, record s { calls = buf_alloc size ∷ s.calls })

  unfoldable pub allocate_cached : ℕ → BufferAllocator → List ℕ → ℕ × BufferAllocator
  allocate_cached size s [] = device_allocate size s
  allocate_cached size s (b ∷ bs) = (b, record s { cache = bs })

  unfoldable pub allocate_buffer : ℕ → BufferAllocator → ℕ × BufferAllocator
  allocate_buffer size s =
      if size == duckdb_block_size then allocate_cached size s s.cache else device_allocate size s

-- xnvme_buf_free.
unfoldable pub device_free : ℕ → BufferAllocator → BufferAllocator
device_free b s = record s { calls = buf_free b ∷ s.calls }

unfoldable pub free_buffer : (buffer size : ℕ) → BufferAllocator → BufferAllocator
free_buffer b size s =
    if b == 0
    then s
    else if size == duckdb_block_size
    then if ltb (length s.cache) buffer_cache_depth
      then record s { cache = b ∷ s.cache }
      else device_free b s
    else device_free b s

unfoldable pub free_cached : List ℕ → List BufferCall → List BufferCall
free_cached [] calls = calls
free_cached (b ∷ bs) calls = free_cached bs (buf_free b ∷ calls)

unfoldable pub flush : BufferAllocator → BufferAllocator
flush s = record { cache = []; calls = free_cached s.cache s.calls }

-- The buffers that a list of calls has freed.
unfoldable pub freed : List BufferCall → List ℕ
freed [] = []
freed (buf_alloc n ∷ cs) = freed cs
freed (buf_free b ∷ cs) = b ∷ freed cs

unfoldable pub count_of : ℕ → List ℕ → ℕ
count_of b [] = 0
count_of b (c ∷ cs) = (if c == b then 1 else 0) + count_of b cs

free_cached-freed :
    (b : ℕ) (bs : List ℕ) (calls : List BufferCall)
    → count_of b (freed (free_cached bs calls)) ≡ count_of b bs + count_of b (freed calls)
unfolding free_cached freed count_of
free_cached-freed b [] calls = omega arith
free_cached-freed b (c ∷ bs) calls = ground (arith, free_cached-freed b bs (buf_free c ∷ calls))

-- A buffer that is not null and is given back stands once more in the cache or among those freed on
-- the device, no other does, and a cache of at most 32 buffers stays one; after Flush the cache is
-- empty and what it had is freed.
pub free_buffer-counts :
    (b size : ℕ) (s : BufferAllocator)
    → b ≢ 0
    → length s.cache ≤ buffer_cache_depth
    → ((c : ℕ)
        → count_of c (free_buffer b size s).cache + count_of c (freed (free_buffer b size s).calls)
          ≡ (if b == c then 1 else 0) + (count_of c s.cache + count_of c (freed s.calls)))
      × (length (free_buffer b size s).cache ≤ buffer_cache_depth)
      × ((flush s).cache ≡ [])
      × ((c : ℕ)
          → count_of c (freed (flush s).calls) ≡ count_of c s.cache + count_of c (freed s.calls))
unfolding free_buffer device_free flush count_of freed
free_buffer-counts b size s ne h =
    ((λ c. ground arith), ground arith, refl, λ c. free_cached-freed c s.cache s.calls)

-- When the cache has room, a buffer of a DuckDB block that is given back is the next one that is
-- handed out, with no call of the device, and the allocator is as before.
pub allocate_buffer-free_buffer :
    (buf_alloc_result : List BufferCall → ℕ → ℕ) (b : ℕ) (s : BufferAllocator)
    → b ≢ 0
    → length s.cache < buffer_cache_depth
    → allocate_buffer buf_alloc_result duckdb_block_size (free_buffer b duckdb_block_size s)
      ≡ (b, s)
unfolding allocate_buffer allocate_cached free_buffer
allocate_buffer-free_buffer buf_alloc_result b s ne h =
    let not_null : (b == 0) ≡ false = ground arith in
    let room : ltb (length s.cache) buffer_cache_depth ≡ true = ground arith in
    rw (not_null, room) refl
