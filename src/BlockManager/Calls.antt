-- ===== src/BlockManager/Calls.antt =====
-- Sequences of calls of the allocator.
use nvmefs.Prelude.{ℕ, ◌+◌, ◌<◌, ◌≤◌, ◌≡◌, ◌≢◌, refl, ◌∙◌, ◌⊎◌, ◌^◌, List, [], ◌∷◌, Run, final}
use nvmefs.BlockManager.Allocate.{Outcome, exhausted, allocated, allocate_block-Outcome}
use nvmefs.BlockManager.Defs.{Manager, TemporaryBlock, new_manager, allocate_block, free_block}
use nvmefs.BlockManager.Free.{free_block-IsValid}
use nvmefs.BlockManager.Invariant.{IsValid, IsUsed, new_manager-IsValid}
use nvmefs.BlockManager.Space.{used-Disjoint}
use nvmefs.BlockManager.Used.{used_count, IsUsed-found}

-- The calls that change the allocator.
pub data Call : Type 0 where
  allocating : (count : ℕ) → Call
  freeing : (x : ℕ) → Call

-- The allocator after a call, whether it returns or throws.
unfoldable pub after_call : Call → Manager → Manager
after_call (allocating count) m = final (allocate_block count m)
after_call (freeing x) m = final (free_block x m)

unfoldable pub after_calls : List Call → Manager → Manager
after_calls [] m = m
after_calls (call ∷ calls) m = after_calls calls (after_call call m)

-- No caller asks for a block of no LBAs, or gives back a block that is not in use.
abbrev pub IsAllowed : Call → Manager → Type 0
IsAllowed (allocating count) m = 0 < count
IsAllowed (freeing x) m = 0 < used_count x m.blocks

abbrev pub AreAllowed : List Call → Manager → Type 0
AreAllowed [] m = Unit
AreAllowed (call ∷ calls) m = IsAllowed call m × AreAllowed calls (after_call call m)

-- A valid allocator over an area.
abbrev IsOver : (start end : ℕ) → Manager → Type 0
IsOver start end m = IsValid m × (m.allocated_start_lba ≡ start) × (m.allocated_end_lba ≡ end)

after_call-IsOver :
    (call : Call) (start end : ℕ) (m : Manager)
    → IsOver start end m
    → IsAllowed call m
    → IsOver start end (after_call call m)
unfolding after_call
after_call-IsOver (allocating count) start end m (v, s, e) h =
    kept (allocate_block count m) (allocate_block-Outcome count m v h)
  where
    kept : (r : Run Manager ℕ) → Outcome count m r → IsOver start end (final r)
    kept r (exhausted none_left) = (v, s, e)
    kept r (allocated a) = (a.valid, a.area.0 ∙ s, a.area.1 ∙ e)
after_call-IsOver (freeing x) start end m (v, s, e) h =
    let (b, used) = IsUsed-found m v x h in
    let (m', f, w, keeps, gone, s', e', counts) = free_block-IsValid m v x b used in
    rw f (w, s' ∙ s, e' ∙ e)

after_calls-IsOver :
    (calls : List Call) (start end : ℕ) (m : Manager)
    → IsOver start end m
    → AreAllowed calls m
    → IsOver start end (after_calls calls m)
unfolding after_calls
after_calls-IsOver [] start end m v h = v
after_calls-IsOver (call ∷ calls) start end m v h =
    after_calls-IsOver calls start end (after_call call m)
      (after_call-IsOver call start end m v h.0) h.1

-- In the allocator that any sequence of AllocateBlock and FreeBlock, none of them for a block of no
-- LBAs or for one that is not in use, leaves of a fresh one whose area has more than 56 LBAs and ends
-- at a word: two different blocks in use share no LBA, and each lies in the area.
pub after_calls-Disjoint :
    (calls : List Call) (active peak start end : ℕ)
    → start + 56 < end
    → end < 2 ^ 64
    → AreAllowed calls (new_manager active peak start end)
    → (x y : ℕ) (b c : TemporaryBlock) → x ≢ y
    → IsUsed (after_calls calls (new_manager active peak start end)) x b
    → IsUsed (after_calls calls (new_manager active peak start end)) y c
    → ((b.start_lba + b.lba_count ≤ c.start_lba) ⊎ (c.start_lba + c.lba_count ≤ b.start_lba))
      × (start ≤ b.start_lba)
      × (b.start_lba + b.lba_count ≤ end)
unfolding new_manager
after_calls-Disjoint calls active peak start end h k allowed x y b c ne p q =
    let (v, s, e) =
      after_calls-IsOver calls start end (new_manager active peak start end)
        (new_manager-IsValid active peak start end h k, refl, refl) allowed in
    let (apart, low, high) = used-Disjoint _ x y b c v ne p q in (apart, rw s at low, rw e at high)
