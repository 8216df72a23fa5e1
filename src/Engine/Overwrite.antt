-- ===== src/Engine/Overwrite.antt =====
-- Copying bytes into a buffer of whole blocks, and writing the blocks, changes these bytes only.
use nvmefs.Prelude.{
  ℕ, ◌+◌, ◌-◌, ◌<◌, ◌≤◌, ◌≡◌, ◌∙◌, ap, inl, inr, true, false, List, if◌then◌else◌, length, get_or,
  put_bytes, within, arith, get_or-put_bytes, Bool-cases,
}

pub overwritten :
    (old src : List ℕ) (start size offset : ℕ) (f g : ℕ → ℕ) (k : ℕ)
    → length old ≡ size
    → offset + length src ≤ size
    → ((i : ℕ) → i < size → within offset (length src) i ≡ false → get_or old i 0 ≡ f (start + i))
    → g k ≡ (if within start size k then get_or (put_bytes old offset src) (k - start) 0 else f k)
    → g k ≡ (
        if within (start + offset) (length src) k then get_or src (k - (start + offset)) 0 else f k)
overwritten old src start size offset f g k e h kept written =
    elim (Bool-cases (within start size k)) [
      | inr out ↦
          let away : within (start + offset) (length src) k ≡ false = ground arith in
          rw away (written ∙ rw out)
      | inl blocks ↦
          let here : start + (k - start) ≡ k = ground arith in
          let put = get_or-put_bytes old offset src (k - start) (omega arith) in
          let new : g k ≡ get_or (put_bytes old offset src) (k - start) 0 = written ∙ rw blocks in
          elim (Bool-cases (within offset (length src) (k - start))) [
            | inl inside ↦
                let there : within (start + offset) (length src) k ≡ true = ground arith in
                let index : k - (start + offset) ≡ k - start - offset = omega arith in
                rw (there, index) (new ∙ put ∙ rw inside)
            | inr outside ↦
                let away : within (start + offset) (length src) k ≡ false = ground arith in
                rw away
                  (new ∙ put ∙ rw outside (kept (k - start) (ground arith) outside ∙ ap f here))
          ]
    ]
