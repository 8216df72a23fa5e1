-- ===== src/BlockManager/Lists.antt =====
-- The free lists: how often a block's name stands in each after a push, a pop or a removal.
use nvmefs.Prelude.{
  ℕ, zero, suc, ◌+◌, ◌≡◌, refl, ◌&&◌, List, [], ◌∷◌, Option, none, some, ◌==◌, if◌then◌else◌, set,
  get_or, arith, ◌<◌, ◌≤◌, length, Bool-cases, inl, inr, ltb, ap, subst,
}
use nvmefs.BlockManager.Defs.{
  TemporaryBlock, get_free_list_index, push_free_block, tail_or_nil, pop_free_block, remove_name,
  remove_free_block, first_free,
}
use nvmefs.BlockManager.Counts.{one_if, occurs, index-lt}

get_or-set {ℓ} :
    {A : Type ℓ} (l : List A) (i j : ℕ) (v d : A)
    → i < length l
    → get_or (set l i v) j d ≡ (if i == j then v else get_or l j d)
get_or-set [] i j v d h = absurd (omega arith)
get_or-set (x ∷ l) zero zero v d h = refl
get_or-set (x ∷ l) zero (suc j) v d h = ground arith
get_or-set (x ∷ l) (suc i) zero v d h = ground arith
get_or-set (x ∷ l) (suc i) (suc j) v d h = ground (arith, get_or-set l i j v d)

length-set {ℓ} : {A : Type ℓ} (l : List A) (i : ℕ) (v : A) → length (set l i v) ≡ length l
length-set [] i v = refl
length-set (x ∷ l) zero v = refl
length-set (x ∷ l) (suc i) v = ap suc (length-set l i v)

occurs-remove_name :
    (x y : ℕ) (l : List ℕ)
    → 0 < occurs x l
    → occurs y (remove_name x l) + one_if (x == y) ≡ occurs y l
unfolding remove_name
occurs-remove_name x y [] h = absurd (omega arith)
occurs-remove_name x y (z ∷ l) h = ground (arith, occurs-remove_name x y l)

module _ (lists : List (List ℕ)) (eight : length lists ≡ 8) (y j : ℕ) where
  abbrev here : List (List ℕ) → ℕ
  here ls = occurs y (get_or ls j [])

  pub occurs-push :
      (b : TemporaryBlock)
      → here (push_free_block b lists)
        ≡ here lists + one_if (b.name == y && get_free_list_index b.lba_count == j)
  unfolding push_free_block
  occurs-push b =
      let i = get_free_list_index b.lba_count in
      ground (arith, get_or-set lists i j (b.name ∷ get_or lists i []) [], index-lt b.lba_count)

  pub occurs-pop :
      (i x : ℕ) (xs : List ℕ)
      → i < 8
      → get_or lists i [] ≡ x ∷ xs
      → here (pop_free_block i lists) + one_if (x == y && i == j) ≡ here lists
  unfolding pop_free_block tail_or_nil
  occurs-pop i x xs h e = rw e (ground (arith, get_or-set lists i j xs []))

  pub occurs-remove :
      (b : TemporaryBlock)
      → 0 < occurs b.name (get_or lists (get_free_list_index b.lba_count) [])
      → here (remove_free_block b lists)
          + one_if (b.name == y && get_free_list_index b.lba_count == j)
        ≡ here lists
  unfolding remove_free_block
  occurs-remove b h =
      let i = get_free_list_index b.lba_count in
      ground (
        arith,
        get_or-set lists i j (remove_name b.name (get_or lists i [])) [],
        index-lt b.lba_count,
        occurs-remove_name b.name y (get_or lists i []) h,
      )

pub length-push :
    (b : TemporaryBlock) (lists : List (List ℕ)) → length (push_free_block b lists) ≡ length lists
unfolding push_free_block
length-push b lists = length-set lists _ _

pub length-pop : (i : ℕ) (lists : List (List ℕ)) → length (pop_free_block i lists) ≡ length lists
unfolding pop_free_block
length-pop i lists = length-set lists i _

pub length-remove :
    (b : TemporaryBlock) (lists : List (List ℕ)) → length (remove_free_block b lists) ≡ length lists
unfolding remove_free_block
length-remove b lists = length-set lists _ _

-- What the search through the free lists finds: the top of the first list that is not empty, or
-- nothing, if all of them are empty.
pub data Found (from i : ℕ) (ls : List (List ℕ)) : Option (ℕ × ℕ) → Type 0 where
  nothing : ((k : ℕ) → from ≤ i + k → get_or ls k [] ≡ []) → Found from i ls none
  top :
      (k x : ℕ) (xs : List ℕ)
      → from ≤ i + k
      → k < length ls
      → get_or ls k [] ≡ x ∷ xs
      → ((m : ℕ) → m < k → from ≤ i + m → get_or ls m [] ≡ [])
      → Found from i ls (some (i + k, x))

Found-later :
    (from i : ℕ) (l : List ℕ) (ls : List (List ℕ)) (o : Option (ℕ × ℕ))
    → (from ≤ i → l ≡ [])
    → Found from (suc i) ls o
    → Found from i (l ∷ ls) o
Found-later from i l ls o empty (nothing h) = nothing (go h)
  where
    go :
        ((k : ℕ) → from ≤ suc i + k → get_or ls k [] ≡ [])
        → (k : ℕ) → from ≤ i + k
        → get_or (l ∷ ls) k [] ≡ []
    go h zero p = empty (omega arith)
    go h (suc k) p = h k (omega arith)
Found-later from i l ls o empty (top k x xs h p e before) =
    subst (λ n. Found from i (l ∷ ls) (some (n, x))) (omega arith)
      (top (suc k) x xs (omega arith) (omega arith) e (go before))
  where
    go :
        ((m : ℕ) → m < k → from ≤ suc i + m → get_or ls m [] ≡ [])
        → (m : ℕ) → m < suc k
        → from ≤ i + m
        → get_or (l ∷ ls) m [] ≡ []
    go h zero q p = empty (omega arith)
    go h (suc m) q p = h m (omega arith) (omega arith)

Found-here :
    (from i x : ℕ) (xs : List ℕ) (ls : List (List ℕ))
    → from ≤ i
    → Found from i ((x ∷ xs) ∷ ls) (some (i, x))
Found-here from i x xs ls h =
    subst (λ n. Found from i ((x ∷ xs) ∷ ls) (some (n, x))) (omega arith)
      (top zero x xs (omega arith) (omega arith) refl (λ m q. absurd (omega arith)))

pub first_free-Found : (from i : ℕ) (ls : List (List ℕ)) → Found from i ls (first_free from i ls)
unfolding first_free
first_free-Found from i [] = nothing (λ k h. refl)
first_free-Found from i ([] ∷ ls) =
    let later =
      Found-later from i [] ls (first_free from (suc i) ls) (λ h. refl)
        (first_free-Found from (suc i) ls) in
    elim (Bool-cases (ltb i from)) [ inl early ↦ rw early later | inr late ↦ rw late later ]
first_free-Found from i ((x ∷ xs) ∷ ls) = elim (Bool-cases (ltb i from)) [
  | inl early ↦ rw early (
      Found-later from i (x ∷ xs) ls (first_free from (suc i) ls) (λ h. absurd (ground arith))
        (first_free-Found from (suc i) ls))
  | inr late ↦ rw late (Found-here from i x xs ls (ground arith))
]

pub first_free_at :
    (from i k x : ℕ) (xs : List ℕ) (ls : List (List ℕ))
    → from ≡ i + k
    → get_or ls k [] ≡ x ∷ xs
    → first_free from i ls ≡ some (from, x)
unfolding first_free
first_free_at from i k x xs [] h e = cc
first_free_at from i zero x xs (l ∷ ls) h e = ground arith
first_free_at from i (suc k) x xs (l ∷ ls) h e =
    ground (arith, first_free_at from (suc i) k x xs ls)
