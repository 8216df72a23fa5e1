-- ===== src/Engine/Async/Parts.antt =====
-- The parts of a transfer that its commands stand for.

use nvmefs.Prelude.{
  ℕ, ◌+◌, ◌*◌, ◌<◌, ◌≤◌, ◌≡◌, ap, inl, inr, Bool, true, false, ◌||◌, List, [], ◌∷◌, within, arith,
  All, Bool-cases,
}
use nvmefs.Engine.Async.Chunks.{Tiles}
use nvmefs.Engine.Xnvme.{Chunk}

-- A command of a transfer of `total` blocks from `start` on: some of its blocks, and their bytes.
abbrev pub IsPart : (n start total : ℕ) → Chunk → Type 0
IsPart n start total c =
    (i : ℕ) × (c.slba ≡ start + i) × (c.buf_offset ≡ i * n) × (0 < c.count) × (i + c.count ≤ total)

abbrev pub covers : (n k : ℕ) → Chunk → Bool
covers n k c = within c.buf_offset (c.count * n) k

abbrev pub any : (Chunk → Bool) → List Chunk → Bool
any p [] = false
any p (c ∷ cs) = p c || any p cs

pub Tiles-All :
    (n start total i : ℕ) (cs : List Chunk)
    → Tiles n start total i cs
    → All (IsPart n start total) cs
Tiles-All n start total i [] t = tt
Tiles-All n start total i (c ∷ cs) (a, b, p, le, t) =
    ((i, a, b, p, le), Tiles-All n start total (i + c.count) cs t)

pub Tiles-covers :
    (n start total i k : ℕ) (cs : List Chunk)
    → Tiles n start total i cs
    → i * n ≤ k
    → k < total * n
    → any (covers n k) cs ≡ true
Tiles-covers n start total i k [] t lo hi =
    absurd (same_end (i * n) (total * n) (ap (λ j. j * n) t) lo hi)
  where
    same_end : (a b : ℕ) → a ≡ b → a ≤ k → k < b → ⊥
    same_end a b e l h = omega arith
Tiles-covers n start total i k (c ∷ cs) (a, b, p, le, t) lo hi =
    let sum : (i + c.count) * n ≡ i * n + c.count * n = grind arith in
    elim (Bool-cases (covers n k c)) [
      | inl hit ↦ ground arith
      | inr miss ↦
          let rest = Tiles-covers n start total (i + c.count) k cs t (ground arith) hi in
          ground arith
    ]
