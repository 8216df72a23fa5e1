-- ===== src/Engine/Async/Chunks.antt =====
-- The chunks of a transfer, and the blocks they stand for.
use native.Mathlib.Nat.{mul-le-mul, mul-le-mul_right, le-div_iff_mul-le, mod-eq_of_lt}
use nvmefs.Prelude.{
  ℕ, zero, suc, ◌+◌, ◌-◌, ◌*◌, ◌/◌, ◌%◌, ◌^◌, ◌<◌, ◌≤◌, ◌≡◌, refl, ◌∙◌, inl, inr, List, [], ◌∷◌,
  some, if◌then◌else◌, ltb, ◌==◌, arith, add64, add64_exact, Bool-cases,
}
use nvmefs.Device.{CmdContext, IsCommand}
use nvmefs.Engine.Xnvme.{Chunk, NvmeDevice}
use nvmefs.Engine.Async.{split_chunks, max_lbas, chunks_of}

-- The chunks from block `i` of a transfer on, which has `total` blocks from `start`: each starts where
-- the one before it ends, on the device and in the buffer.
abbrev pub Tiles : (lba_size start total i : ℕ) → List Chunk → Type 0
Tiles n start total i [] = i ≡ total
Tiles n start total i (c ∷ cs) =
    (c.slba ≡ start + i)
    × (c.buf_offset ≡ i * n)
    × (0 < c.count)
    × (i + c.count ≤ total)
    × Tiles n start total (i + c.count) cs

pub split_chunks-Tiles :
    (fuel n max left start total i slba off : ℕ)
    → left < fuel
    → 0 < max
    → i + left ≡ total
    → slba ≡ start + i
    → off ≡ i * n
    → start + total < 2 ^ 64
    → total * n < 2 ^ 32
    → (cs : List Chunk) × (split_chunks fuel n max left slba off ≡ some cs)
      × Tiles n start total i cs
unfolding split_chunks
split_chunks-Tiles zero n max left start total i slba off f m e p q w v = absurd (omega arith)
split_chunks-Tiles (suc fuel) n max left start total i slba off f m e p q w v =
    elim (Bool-cases (left == 0)) [
      | inl done ↦ ([], rw (done, split_chunks) refl, ground arith)
      | inr more ↦
          let chunk : ℕ = if ltb max left then max else left in
          let pos : 0 < chunk = ground arith in
          let le : chunk ≤ left = ground arith in
          let next_slba : add64 slba chunk ≡ start + (i + chunk) =
            add64_exact slba chunk (omega arith) ∙ omega arith in
          let prod : (i + chunk) * n ≤ total * n = mul-le-mul_right n (omega arith) in
          let sum : i * n + chunk * n ≡ (i + chunk) * n = grind arith in
          let next_off : (off + chunk * n) % 2 ^ 32 ≡ (i + chunk) * n = omega arith in
          let (cs, e', t) =
            split_chunks-Tiles fuel n max (left - chunk) start total (i + chunk) (add64 slba chunk)
              ((off + chunk * n) % 2 ^ 32) (omega arith) m (omega arith) next_slba next_off w v in
          (
            record { slba = slba; count = chunk; buf_offset = off } ∷ cs,
            rw (more, split_chunks) (rw (e', split_chunks) refl),
            (p, q, pos, omega arith, t),
          )
    ]

-- Blocks of at most 4096 bytes.
pub record HasSmallBlocks (dev : NvmeDevice) : Type 0 where
  pub some_bytes : 0 < dev.geometry.lba_size
  pub at_most : dev.geometry.lba_size ≤ 4096

max_lbas-pos : (dev : NvmeDevice) → HasSmallBlocks dev → 0 < max_lbas dev
unfolding max_lbas
max_lbas-pos dev small =
    let per : 1 ≤ 4096 / dev.geometry.lba_size =
      (le-div_iff_mul-le small.some_bytes).1 (omega (arith, small.at_most)) in
    ground arith

-- With blocks of at most 4096 bytes, the loop of a command ends, and its chunks tile the blocks of the
-- command in order, none of them empty.
pub chunks_of-Tiles :
    (dev : NvmeDevice) (ctx : CmdContext)
    → HasSmallBlocks dev
    → IsCommand dev.geometry ctx
    → (cs : List Chunk) × (chunks_of dev ctx ≡ some cs)
      × Tiles dev.geometry.lba_size ctx.start_lba ctx.nr_lbas 0 cs
unfolding chunks_of
chunks_of-Tiles dev ctx small c =
    let bytes : ctx.nr_lbas * dev.geometry.lba_size ≤ 2 ^ 16 * 4096 =
      mul-le-mul c.few_blocks small.at_most in
    let left : ctx.nr_lbas % 2 ^ 32 ≡ ctx.nr_lbas = mod-eq_of_lt (omega (arith, c.few_blocks)) in
    rw left (
      split_chunks-Tiles (suc ctx.nr_lbas) dev.geometry.lba_size (max_lbas dev) ctx.nr_lbas
        ctx.start_lba ctx.nr_lbas 0 ctx.start_lba 0 (omega arith) (max_lbas-pos dev small)
        (omega arith) (omega arith) (omega arith) c.last (omega arith))
