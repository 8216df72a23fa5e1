-- ===== src/FileSystem/Blocks.antt =====
-- The blocks that an access of some bytes covers.
use native.Mathlib.Nat.{
  div-mul-le_self, lt-div-mul-add, div-add-mod', lt_of_mul-lt-mul_right, mul-le-mul_right,
}
use nvmefs.Prelude.{
  ℕ, suc, ◌+◌, ◌-◌, ◌*◌, ◌/◌, ◌%◌, ◌^◌, ◌<◌, ◌≤◌, ◌≡◌, refl, ◌↔◌, add64_exact, sub64_exact, arith,
}
use nvmefs.Device.{DeviceGeometry}
use nvmefs.FileSystem.State.{calculate_required_lba_count}

-- The blocks that hold `bytes` bytes from the start of the first on.
abbrev pub blocks_for : (n bytes : ℕ) → ℕ
blocks_for n bytes = (bytes + n - 1) / n

pub blocks_for-bounds :
    (n bytes : ℕ)
    → 0 < n
    → 0 < bytes
    → (0 < blocks_for n bytes)
      × (bytes ≤ blocks_for n bytes * n)
      × (blocks_for n bytes * n < bytes + n)
blocks_for-bounds n bytes pos some =
    let below = div-mul-le_self (bytes + n - 1) n in
    let above = lt-div-mul-add {a = bytes + n - 1} {b = n} pos in
    let upper : bytes ≤ blocks_for n bytes * n = omega arith in
    (positive (blocks_for n bytes) (omega arith), upper, omega arith)
  where
    positive : (k : ℕ) → 0 < k * n → 0 < k
    positive k h = lt_of_mul-lt-mul_right n (omega arith)

pub calculate_exact :
    (geo : DeviceGeometry) (nr_bytes offset : ℕ)
    → 0 < geo.lba_size
    → offset + nr_bytes + geo.lba_size < 2 ^ 64
    → calculate_required_lba_count geo nr_bytes offset ≡ blocks_for geo.lba_size (offset + nr_bytes)
unfolding calculate_required_lba_count
calculate_exact geo nr_bytes offset pos h =
    let a = add64_exact offset nr_bytes (omega arith) in
    let b = add64_exact (offset + nr_bytes) geo.lba_size h in
    let c = sub64_exact (offset + nr_bytes + geo.lba_size) 1 (omega arith) h in rw (a, b, c) refl

-- The blocks of an access lie before `size` blocks exactly if its bytes lie before their bytes.
pub blocks_inside :
    (n location nr_bytes size : ℕ)
    → 0 < n
    → 0 < nr_bytes
    → (location / n + blocks_for n (location % n + nr_bytes) ≤ size)
      ↔ (location + nr_bytes ≤ size * n)
blocks_inside n location nr_bytes size pos some =
    let count = blocks_for n (location % n + nr_bytes) in
    let (p, up, down) = blocks_for-bounds n (location % n + nr_bytes) pos (omega arith) in
    let whole = div-add-mod' location n in
    (
      (λ h. ends (location / n) count whole up (mul-le-mul_right n h)),
      (λ h. starts (location / n) count whole down h),
    )
  where
    ends :
        (q c : ℕ)
        → q * n + location % n ≡ location
        → location % n + nr_bytes ≤ c * n
        → (q + c) * n ≤ size * n
        → location + nr_bytes ≤ size * n
    ends q c e up le = let sum : (q + c) * n ≡ q * n + c * n = grind arith in omega arith

    starts :
        (q c : ℕ)
        → q * n + location % n ≡ location
        → c * n < location % n + nr_bytes + n
        → location + nr_bytes ≤ size * n
        → q + c ≤ size
    starts q c e down le =
        let sum : (q + c) * n ≡ q * n + c * n = grind arith in
        let next : suc size * n ≡ size * n + n = grind arith in
        let lt : (q + c) * n < suc size * n = omega arith in
        omega (arith, lt_of_mul-lt-mul_right n lt)
