-- ===== src/Engine/Async/Runs.antt =====
-- Runs of the commands of a transfer, in any order: each leaves its own part right.
use mathlib.Core.Option.{some-injective}
use nvmefs.Prelude.{
  ℕ, zero, suc, ◌+◌, ◌-◌, ◌*◌, ◌^◌, ◌<◌, ◌≤◌, ◌≡◌, ◌≢◌, refl, sym, ◌∙◌, ap, ◌⊎◌, inl, inr, true,
  false, List, [], ◌∷◌, some, none, if◌then◌else◌, length, get_or, bytes_at, put_bytes, get_bytes,
  within, arith, All, sub64, sub64_exact, Bool-cases, Option-cases, length-bytes_at,
  get_or-bytes_at, length-put_bytes, get_or-put_bytes, get_or-get_bytes,
}
use native.Mathlib.Nat.{mul-le-mul_right}
use nvmefs.Engine.Async.{run_reads, run_writes, submit, read_chunks, refused, all_taken}
use nvmefs.Engine.Async.Parts.{IsPart, covers, any}
use nvmefs.Engine.Xnvme.{Xnvme, IsLawful, CanRead, CanWrite, Chunk, NvmeDevice}
use nvmefs.PathHandler.Defs.{StringUtil}

module _ (x : Xnvme) (dev : NvmeDevice) (u : StringUtil) (thread : ℕ)
    (lawful : IsLawful dev.geometry x) (start total : ℕ) (few : total ≤ 2 ^ 16) where
  abbrev n : ℕ
  n = dev.geometry.lba_size

  -- What a read command does to the buffer.
  read_step :
      (d : x.Disk) (w : ℕ × ℕ) (c : Chunk) (buf bs : List ℕ) (k : ℕ)
      → IsPart n start total c
      → length buf ≡ total * n
      → x.nvm_read d w c.slba (sub64 c.count 1) ≡ some bs
      → get_or (put_bytes buf c.buf_offset bs) k 0
        ≡ (if covers n k c then x.byte d (start * n + k) else get_or buf k 0)
  read_step d w c buf bs k (i, a, b, p, le) len e =
      let one = sub64_exact c.count 1 p (omega arith) in
      let small : sub64 c.count 1 < 2 ^ 16 = omega (arith, one) in
      let count : sub64 c.count 1 + 1 ≡ c.count = omega (arith, one) in
      let whole : bs ≡ bytes_at (x.byte d) (c.slba * n) (c.count * n) =
        lawful.read_law d w c.slba (sub64 c.count 1) bs small e
        ∙ ap (λ m. bytes_at (x.byte d) (c.slba * n) (m * n)) count in
      let size : length bs ≡ c.count * n =
        ap length whole ∙ length-bytes_at (x.byte d) (c.slba * n) (c.count * n) in
      let inside : (i + c.count) * n ≤ total * n = mul-le-mul_right n le in
      let sum : (i + c.count) * n ≡ i * n + c.count * n = grind arith in
      let place : c.slba * n ≡ start * n + c.buf_offset =
        ap (λ m. m * n) a ∙ spread start i ∙ ap (λ m. start * n + m) (sym b) in
      let put = get_or-put_bytes buf c.buf_offset bs k (omega arith) in
      elim (Bool-cases (covers n k c)) [
        | inl hit ↦
            let hit' : within c.buf_offset (length bs) k ≡ true = rw size hit in
            let at =
              get_or-bytes_at (x.byte d) (c.slba * n) (c.count * n) (k - c.buf_offset)
                (ground arith) in
            let position : c.slba * n + (k - c.buf_offset) ≡ start * n + k = ground arith in
            rw hit (
              put
              ∙ rw hit'
                  (ap (λ l. get_or l (k - c.buf_offset) 0) whole ∙ at ∙ ap (x.byte d) position))
        | inr miss ↦
            let miss' : within c.buf_offset (length bs) k ≡ false = rw size miss in
            rw miss (put ∙ rw miss' refl)
      ]
    where
      spread : (s j : ℕ) → (s + j) * n ≡ s * n + j * n
      spread s j = grind arith

  -- None of the read commands fails.
  abbrev pub Complete : ℕ × ℕ → x.Disk → List Chunk → Type 0
  Complete w d cs = All (λ c. x.nvm_read d w c.slba (sub64 c.count 1) ≢ none) cs

  last_block :
      (c : Chunk)
      → IsPart n start total c
      → (start ≤ c.slba) × (c.slba + sub64 c.count 1 < start + total)
  last_block c (i, a, b, p, le) =
      let one = sub64_exact c.count 1 p (omega arith) in (omega arith, omega (arith, one))

  pub CanRead-Complete :
      (w : ℕ × ℕ) (d : x.Disk)
      → CanRead x d start total
      → (cs : List Chunk) → All (IsPart n start total) cs
      → Complete w d cs
  CanRead-Complete w d can [] parts = tt
  CanRead-Complete w d can (c ∷ cs) parts =
      let (low, high) = last_block c parts.0 in
      (can w c.slba (sub64 c.count 1) low high, CanRead-Complete w d can cs parts.1)

  module _ (w : ℕ × ℕ) (d : x.Disk) (k : ℕ) where
    pub length-run_reads :
        (cs : List Chunk) (buf : List ℕ) → length (run_reads x dev u thread w d cs buf) ≡ length buf
    unfolding run_reads
    length-run_reads [] buf = refl
    length-run_reads (c ∷ cs) buf = elim (Option-cases (x.nvm_read d w c.slba (sub64 c.count 1))) [
      | inl e ↦ rw e (length-run_reads cs buf)
      | inr (bs, e) ↦ rw e (
          length-run_reads cs (put_bytes buf c.buf_offset bs)
          ∙ length-put_bytes buf c.buf_offset bs)
    ]

    -- A byte of the buffer that is right, or that one of the commands brings, is right in the end.
    pub run_reads-right :
        (cs : List Chunk) (buf : List ℕ)
        → All (IsPart n start total) cs
        → Complete w d cs
        → length buf ≡ total * n
        → ((get_or buf k 0 ≡ x.byte d (start * n + k)) ⊎ (any (covers n k) cs ≡ true))
        → get_or (run_reads x dev u thread w d cs buf) k 0 ≡ x.byte d (start * n + k)
    unfolding run_reads
    run_reads-right [] buf parts done len (inl right) = right
    run_reads-right [] buf parts done len (inr covered) = absurd (ground arith)
    run_reads-right (c ∷ cs) buf parts done len h =
        elim (Option-cases (x.nvm_read d w c.slba (sub64 c.count 1))) [
          | inl e ↦ absurd (done.0 e)
          | inr (bs, e) ↦
              let step = read_step d w c buf bs k parts.0 len e in
              rw e (
                run_reads-right cs (put_bytes buf c.buf_offset bs) parts.1 done.1
                  (length-put_bytes buf c.buf_offset bs ∙ len) (next step))
        ]
      where
        next :
            {b : ℕ}
            → b ≡ (if covers n k c then x.byte d (start * n + k) else get_or buf k 0)
            → (b ≡ x.byte d (start * n + k)) ⊎ (any (covers n k) cs ≡ true)
        next step = elim (Bool-cases (covers n k c)) [
          | inl hit ↦ inl (rw hit at step)
          | inr miss ↦ elim h [
            | inl right ↦ inl ((rw miss at step) ∙ right)
            | inr covered ↦ inr (ground arith)
          ]
        ]

    -- The synchronous reads of a write that all succeed are such a run.
    pub read_chunks-run_reads :
        (cs : List Chunk) (buf old : List ℕ)
        → read_chunks x dev u thread w d cs buf ≡ some old
        → Complete w d cs × (old ≡ run_reads x dev u thread w d cs buf)
    unfolding read_chunks run_reads
    read_chunks-run_reads [] buf old e = (tt, sym (some-injective buf old e))
    read_chunks-run_reads (c ∷ cs) buf old e =
        elim (Option-cases (x.nvm_read d w c.slba (sub64 c.count 1))) [
          | inl f ↦ absurd (none_some (rw (f, read_chunks) at e))
          | inr (bs, f) ↦
              let (done, same) =
                read_chunks-run_reads cs (put_bytes buf c.buf_offset bs) old
                  (rw (f, read_chunks) at e) in
              ((λ h. none_some (sym h ∙ f), done), rw f same)
        ]
      where
        none_some : {l : List ℕ} → none ≡ some l → ⊥
        none_some h = cc

  -- A command that is written leaves the bytes outside its transfer, and makes its own those of `buf`.
  write_step :
      (d d' : x.Disk) (w : ℕ × ℕ) (c : Chunk) (buf : List ℕ) (k : ℕ)
      → IsPart n start total c
      → x.nvm_write d w c.slba (sub64 c.count 1) (get_bytes buf c.buf_offset (c.count * n))
        ≡ some d'
      → ((within (start * n) (total * n) k ≡ false) → x.byte d' k ≡ x.byte d k)
        × ((start * n ≤ k)
            → x.byte d' k
              ≡ (if covers n (k - start * n) c then get_or buf (k - start * n) 0 else x.byte d k))
  write_step d d' w c buf k (i, a, b, p, le) e =
      let one = sub64_exact c.count 1 p (omega arith) in
      let small : sub64 c.count 1 < 2 ^ 16 = omega (arith, one) in
      let count : (sub64 c.count 1 + 1) * n ≡ c.count * n = ap (λ m. m * n) (omega (arith, one)) in
      let law =
        lawful.write_law d d' w c.slba (sub64 c.count 1) (get_bytes buf c.buf_offset (c.count * n))
          k small e in
      let inside : (i + c.count) * n ≤ total * n = mul-le-mul_right n le in
      let sum : (i + c.count) * n ≡ i * n + c.count * n = grind arith in
      let place : c.slba * n ≡ start * n + c.buf_offset =
        ap (λ m. m * n) a ∙ spread start i ∙ ap (λ m. start * n + m) (sym b) in
      let law' = rw count at law in
      (
        (λ out.
            let miss : within (c.slba * n) (c.count * n) k ≡ false = ground arith in
            law' ∙ rw miss refl),
        (λ low. elim (Bool-cases (covers n (k - start * n) c)) [
          | inl hit ↦
              let here : within (c.slba * n) (c.count * n) k ≡ true = ground arith in
              let at =
                get_or-get_bytes buf c.buf_offset (c.count * n) (k - c.slba * n) (ground arith) in
              let position : c.buf_offset + (k - c.slba * n) ≡ k - start * n = ground arith in
              rw hit (law' ∙ rw here (at ∙ ap (λ m. get_or buf m 0) position))
          | inr miss ↦
              let away : within (c.slba * n) (c.count * n) k ≡ false = ground arith in
              rw miss (law' ∙ rw away refl)
        ]),
      )
    where
      spread : (s j : ℕ) → (s + j) * n ≡ s * n + j * n
      spread s j = grind arith

  pub run_writes-outside :
      (w : ℕ × ℕ) (buf : List ℕ) (k : ℕ)
      → within (start * n) (total * n) k ≡ false
      → (cs : List Chunk) (d : x.Disk) → All (IsPart n start total) cs
      → x.byte (run_writes x dev u thread w buf cs d) k ≡ x.byte d k
  unfolding run_writes
  run_writes-outside w buf k out [] d parts = refl
  run_writes-outside w buf k out (c ∷ cs) d parts =
      elim (Option-cases
        (x.nvm_write d w c.slba (sub64 c.count 1) (get_bytes buf c.buf_offset (c.count * n)))) [
          | inl e ↦ rw e (run_writes-outside w buf k out cs d parts.1)
          | inr (d', e) ↦ rw e (
              run_writes-outside w buf k out cs d' parts.1
              ∙ (write_step d d' w c buf k parts.0 e).0 out)
        ]

  pub run_writes-right :
      (can : CanWrite x start total) (w : ℕ × ℕ) (buf : List ℕ) (k : ℕ)
      → start * n ≤ k
      → (cs : List Chunk) (d : x.Disk) → All (IsPart n start total) cs
      → ((x.byte d k ≡ get_or buf (k - start * n) 0) ⊎ (any (covers n (k - start * n)) cs ≡ true))
      → x.byte (run_writes x dev u thread w buf cs d) k ≡ get_or buf (k - start * n) 0
  unfolding run_writes
  run_writes-right can w buf k low [] d parts (inl right) = right
  run_writes-right can w buf k low [] d parts (inr covered) = absurd (ground arith)
  run_writes-right can w buf k low (c ∷ cs) d parts h =
      elim (Option-cases
        (x.nvm_write d w c.slba (sub64 c.count 1) (get_bytes buf c.buf_offset (c.count * n)))) [
          | inl e ↦
              let (first, last) = last_block c parts.0 in
              absurd (can d w c.slba (sub64 c.count 1) _ first last e)
          | inr (d', e) ↦ rw e (
              run_writes-right can w buf k low cs d' parts.1
                (next ((write_step d d' w c buf k parts.0 e).1 low)))
        ]
    where
      next :
          {b : ℕ}
          → b ≡ (if covers n (k - start * n) c then get_or buf (k - start * n) 0 else x.byte d k)
          → (b ≡ get_or buf (k - start * n) 0) ⊎ (any (covers n (k - start * n)) cs ≡ true)
      next step = elim (Bool-cases (covers n (k - start * n) c)) [
        | inl hit ↦ inl (rw hit at step)
        | inr miss ↦ elim h [
          | inl right ↦ inl ((rw miss at step) ∙ right)
          | inr covered ↦ inr (ground arith)
        ]
      ]

  -- What a queue takes is a first part of the commands, and all of them if nothing stops it.
  pub submit-All :
      (P : Chunk → Type 0) (room : ℕ) (d : x.Disk) (cs : List Chunk)
      → All P cs
      → All P (submit x dev u thread room d cs).0
  unfolding submit
  submit-All P room d [] h = tt
  submit-All P zero d (c ∷ cs) h = tt
  submit-All P (suc room) d (c ∷ cs) h = elim (Bool-cases (x.accepts d c)) [
    | inl taken ↦ rw taken (h.0, submit-All P room d cs h.1)
    | inr stop ↦ rw stop tt
  ]

  pub submit-all_taken :
      (room : ℕ) (d : x.Disk) (cs : List Chunk)
      → (submit x dev u thread room d cs).1 ≡ all_taken
      → (submit x dev u thread room d cs).0 ≡ cs
  unfolding submit
  submit-all_taken room d [] h = refl
  submit-all_taken zero d (c ∷ cs) h = cc
  submit-all_taken (suc room) d (c ∷ cs) h = elim (Bool-cases (x.accepts d c)) [
    | inl taken ↦ rw taken (ap (◌∷◌ c) (submit-all_taken room d cs (rw taken at h)))
    | inr stop ↦ absurd (stopped (rw stop at h))
  ]
    where
      stopped : refused ≡ all_taken → ⊥
      stopped e = cc
