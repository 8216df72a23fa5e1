-- ===== src/Prelude/Word.antt =====
-- uint64_t (idx_t) arithmetic: addition, subtraction and multiplication wrap modulo 2^64.
use Prim.Native.Nat.{ℕ, ◌+◌, ◌-◌, ◌*◌, ◌%◌, ◌^◌, ◌/◌, ◌≤◌, ◌<◌}
use mathlib.Core.Path.{◌≡◌}
use native.Mathlib.Omega.{arith}
use native.Mathlib.Nat.{mod-eq_of_lt, div-lt_iff_lt-mul}

abbrev pub word : ℕ
word = 2 ^ 64

unfoldable pub add64 : ℕ → ℕ → ℕ
add64 a b = (a + b) % 2 ^ 64

unfoldable pub sub64 : ℕ → ℕ → ℕ
sub64 a b = (a + 2 ^ 64 - b) % 2 ^ 64

unfoldable pub mul64 : ℕ → ℕ → ℕ
mul64 a b = (a * b) % 2 ^ 64

pub add64_exact : (a b : ℕ) → a + b < 2 ^ 64 → add64 a b ≡ a + b
unfolding add64
add64_exact a b h = mod-eq_of_lt h

pub sub64_exact : (a b : ℕ) → b ≤ a → a < 2 ^ 64 → sub64 a b ≡ a - b
unfolding sub64
sub64_exact a b h k = omega arith

pub mul64_exact : (a b : ℕ) → a * b < 2 ^ 64 → mul64 a b ≡ a * b
unfolding mul64
mul64_exact a b h = mod-eq_of_lt h

pub add64-lt : (a b : ℕ) → add64 a b < 2 ^ 64
unfolding add64
add64-lt a b = omega arith

pub sub64-lt : (a b : ℕ) → sub64 a b < 2 ^ 64
unfolding sub64
sub64-lt a b = omega arith

-- Adding undoes subtracting, whatever wraps.
pub add64-sub64 : (a b : ℕ) → a < 2 ^ 64 → b < 2 ^ 64 → add64 (sub64 a b) b ≡ a
unfolding add64 sub64
add64-sub64 a b h k = omega arith

pub ruleset words = (arith, add64_exact, sub64_exact, mul64_exact)

-- A size in bytes counted in blocks of 512 bytes or more.
pub div-lt : (a b : ℕ) → a < 2 ^ 64 → 512 ≤ b → a / b < 2 ^ 62
div-lt a b h k = (div-lt_iff_lt-mul {k = b} {x = a} {y = 2 ^ 62} (omega arith)).1 (omega arith)
