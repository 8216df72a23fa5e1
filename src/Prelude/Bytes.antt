-- ===== src/Prelude/Bytes.antt =====
-- Byte buffers as lists, and memory as a function from positions to bytes.
use Prim.Native.Nat.{ℕ, zero, suc, ◌+◌, ◌-◌, ◌≤◌, ◌<◌}
use mathlib.Core.Path.{◌≡◌, refl, ap, ◌∙◌}
use mathlib.Core.Bool.{Bool, ◌&&◌}
use mathlib.Core.List.{List, [], ◌∷◌}
use native.Mathlib.Omega.{arith}
use nvmefs.Prelude.Tests.{ltb, leb, if◌then◌else◌}
use nvmefs.Prelude.Lists.{length, get_or, take, drop}

-- The bytes of `f` at `count` positions from `start` on.
unfoldable pub bytes_at : (ℕ → ℕ) → (start count : ℕ) → List ℕ
bytes_at f start zero = []
bytes_at f start (suc count) = f start ∷ bytes_at f (suc start) count

-- memcpy of `src` into a buffer at an offset; what does not fit is dropped.
unfoldable pub put_bytes : List ℕ → (offset : ℕ) → List ℕ → List ℕ
put_bytes [] offset src = []
put_bytes (b ∷ buf) zero [] = b ∷ buf
put_bytes (b ∷ buf) zero (c ∷ src) = c ∷ put_bytes buf zero src
put_bytes (b ∷ buf) (suc offset) src = b ∷ put_bytes buf offset src

-- memcpy of `count` bytes out of a buffer from an offset on.
unfoldable pub get_bytes : List ℕ → (offset count : ℕ) → List ℕ
get_bytes buf offset count = take count (drop offset buf)

-- Whether a position is one of `count` from `start` on.
abbrev pub within : (start count k : ℕ) → Bool
within start count k = leb start k && ltb k (start + count)

pub length-bytes_at : (f : ℕ → ℕ) (start count : ℕ) → length (bytes_at f start count) ≡ count
unfolding bytes_at
length-bytes_at f start zero = refl
length-bytes_at f start (suc count) = ap suc (length-bytes_at f (suc start) count)

pub get_or-bytes_at :
    (f : ℕ → ℕ) (start count k : ℕ)
    → k < count
    → get_or (bytes_at f start count) k 0 ≡ f (start + k)
unfolding bytes_at
get_or-bytes_at f start zero k h = absurd (omega arith)
get_or-bytes_at f start (suc count) zero h = ap f (omega arith)
get_or-bytes_at f start (suc count) (suc k) h =
    get_or-bytes_at f (suc start) count k (omega arith) ∙ ap f (omega arith)

pub length-put_bytes :
    (buf : List ℕ) (offset : ℕ) (src : List ℕ) → length (put_bytes buf offset src) ≡ length buf
unfolding put_bytes
length-put_bytes [] offset src = refl
length-put_bytes (b ∷ buf) zero [] = refl
length-put_bytes (b ∷ buf) zero (c ∷ src) = ap suc (length-put_bytes buf zero src)
length-put_bytes (b ∷ buf) (suc offset) src = ap suc (length-put_bytes buf offset src)

pub get_or-put_bytes :
    (buf : List ℕ) (offset : ℕ) (src : List ℕ) (k : ℕ)
    → offset + length src ≤ length buf
    → get_or (put_bytes buf offset src) k 0
      ≡ (if within offset (length src) k then get_or src (k - offset) 0 else get_or buf k 0)
unfolding put_bytes
get_or-put_bytes [] offset src k h = ground arith
get_or-put_bytes (b ∷ buf) zero [] k h = ground arith
get_or-put_bytes (b ∷ buf) zero (c ∷ src) zero h = ground arith
get_or-put_bytes (b ∷ buf) zero (c ∷ src) (suc k) h =
    ground (arith, get_or-put_bytes buf zero src k)
get_or-put_bytes (b ∷ buf) (suc offset) src zero h = ground arith
get_or-put_bytes (b ∷ buf) (suc offset) src (suc k) h =
    ground (arith, get_or-put_bytes buf offset src k)

-- Two lists of one length that agree at every index are equal.
pub bytes_ext :
    (xs ys : List ℕ)
    → length xs ≡ length ys
    → ((k : ℕ) → k < length xs → get_or xs k 0 ≡ get_or ys k 0)
    → xs ≡ ys
bytes_ext [] [] e h = refl
bytes_ext [] (y ∷ ys) e h = absurd (omega arith)
bytes_ext (x ∷ xs) [] e h = absurd (omega arith)
bytes_ext (x ∷ xs) (y ∷ ys) e h =
    let head : x ≡ y = h 0 (omega arith) in
    let tail = bytes_ext xs ys (omega arith) (λ k lt. h (suc k) (omega arith)) in
    rw (head, tail) refl

drop-bytes_at :
    (f : ℕ → ℕ) (start count offset : ℕ)
    → offset ≤ count
    → drop offset (bytes_at f start count) ≡ bytes_at f (start + offset) (count - offset)
unfolding bytes_at
drop-bytes_at f start count zero h =
    let e : start + 0 ≡ start = omega arith in
    let e' : count - 0 ≡ count = omega arith in rw (e, e') refl
drop-bytes_at f start zero (suc offset) h = absurd (omega arith)
drop-bytes_at f start (suc count) (suc offset) h =
    let e : start + suc offset ≡ suc start + offset = omega arith in
    let e' : suc count - suc offset ≡ count - offset = omega arith in
    rw (e, e') (drop-bytes_at f (suc start) count offset (omega arith))

take-bytes_at :
    (f : ℕ → ℕ) (start count n : ℕ)
    → n ≤ count
    → take n (bytes_at f start count) ≡ bytes_at f start n
unfolding bytes_at
take-bytes_at f start count zero h = refl
take-bytes_at f start zero (suc n) h = absurd (omega arith)
take-bytes_at f start (suc count) (suc n) h =
    ap (◌∷◌ (f start)) (take-bytes_at f (suc start) count n (omega arith))

-- A part of a stretch of memory.
pub get_bytes-bytes_at :
    (f : ℕ → ℕ) (start count offset n : ℕ)
    → offset + n ≤ count
    → get_bytes (bytes_at f start count) offset n ≡ bytes_at f (start + offset) n
unfolding get_bytes
get_bytes-bytes_at f start count offset n h =
    rw (drop-bytes_at f start count offset (omega arith))
      (take-bytes_at f (start + offset) (count - offset) n (omega arith))

-- Memory that agrees on a stretch has the same bytes there.
pub bytes_at-eq :
    (f g : ℕ → ℕ) (start count : ℕ)
    → ((k : ℕ) → start ≤ k → k < start + count → f k ≡ g k)
    → bytes_at f start count ≡ bytes_at g start count
unfolding bytes_at
bytes_at-eq f g start zero h = refl
bytes_at-eq f g start (suc count) h =
    let head = h start (omega arith) (omega arith) in
    let tail = bytes_at-eq f g (suc start) count (λ k a b. h k (omega arith) (omega arith)) in
    rw (head, tail) refl

get_or-take : (n : ℕ) (xs : List ℕ) (j : ℕ) → j < n → get_or (take n xs) j 0 ≡ get_or xs j 0
get_or-take zero xs j h = absurd (omega arith)
get_or-take (suc n) [] j h = refl
get_or-take (suc n) (x ∷ xs) zero h = refl
get_or-take (suc n) (x ∷ xs) (suc j) h = get_or-take n xs j (omega arith)

get_or-drop : (n : ℕ) (xs : List ℕ) (j : ℕ) → get_or (drop n xs) j 0 ≡ get_or xs (n + j) 0
get_or-drop zero xs j = ap (λ k. get_or xs k 0) (omega arith)
get_or-drop (suc n) [] j = refl
get_or-drop (suc n) (x ∷ xs) j = get_or-drop n xs j ∙ ap (λ k. get_or (x ∷ xs) k 0) (suc_add n j)
  where
    suc_add : (a b : ℕ) → suc (a + b) ≡ suc a + b
    suc_add a b = omega arith

pub get_or-get_bytes :
    (buf : List ℕ) (offset count j : ℕ)
    → j < count
    → get_or (get_bytes buf offset count) j 0 ≡ get_or buf (offset + j) 0
unfolding get_bytes
get_or-get_bytes buf offset count j h =
    get_or-take count (drop offset buf) j h ∙ get_or-drop offset buf j
