-- ===== src/Strategy/Writers.antt =====
-- UpdateMetadata under interleaving: several writers move the atomic location of one file.
use mathlib.Core.Option.{some-injective}
use nvmefs.Prelude.{
  ℕ, zero, suc, ◌<◌, ◌≤◌, ◌≡◌, refl, ◌⊎◌, inl, inr, List, [], ◌∷◌, if◌then◌else◌, arith, All, set,
  get_elem?, some, subst, ◌==◌, ==_refl, Bool-cases, ◌∙◌, sym, ap,
}

-- Where a thread stands in UpdateMetadata, with the end of its write and, in the loop, the location
-- that it expects.
pub data Thread : Type 0 where
  entering : (new_location : ℕ) → Thread
  looping : (new_location expected : ℕ) → Thread
  returned : (new_location : ℕ) → Thread

pub record System : Type 0 where
  pub location : ℕ
  pub threads : List Thread

-- One atomic action of thread `i`: it loads the location; it leaves the loop, being behind; its
-- exchange succeeds; or its exchange fails, perhaps spuriously, and it takes the location over.
pub data Step (s : System) : System → Type 0 where
  load :
      (i new : ℕ)
      → get_elem? s.threads i ≡ some (entering new)
      → Step s (record s { threads = set s.threads i (looping new s.location) })
  leave :
      (i new expected : ℕ)
      → get_elem? s.threads i ≡ some (looping new expected)
      → new < expected
      → Step s (record s { threads = set s.threads i (returned new) })
  exchange :
      (i new expected : ℕ)
      → get_elem? s.threads i ≡ some (looping new expected)
      → expected ≤ new
      → expected ≡ s.location
      → Step s (record s { location = new; threads = set s.threads i (returned new) })
  retry :
      (i new expected : ℕ)
      → get_elem? s.threads i ≡ some (looping new expected)
      → expected ≤ new
      → Step s (record s { threads = set s.threads i (looping new s.location) })

pub data Reach (s : System) : System → Type 0 where
  here : Reach s s
  next : {t u : System} → Reach s t → Step t u → Reach s u

abbrev pub target : Thread → ℕ
target (entering new) = new
target (looping new expected) = new
target (returned new) = new

-- What a thread has seen is not beyond the location, nor is what a returned thread wrote.
abbrev Behind : ℕ → Thread → Type 0
Behind l (entering new) = Unit
Behind l (looping new expected) = expected ≤ l
Behind l (returned new) = new ≤ l

Behind-mono : (l k : ℕ) (t : Thread) → l ≤ k → Behind l t → Behind k t
Behind-mono l k (entering new) h b = tt
Behind-mono l k (looping new expected) h b = omega arith
Behind-mono l k (returned new) h b = omega arith

All-Behind-mono : (l k : ℕ) (ts : List Thread) → l ≤ k → All (Behind l) ts → All (Behind k) ts
All-Behind-mono l k [] h b = tt
All-Behind-mono l k (t ∷ ts) h b = (Behind-mono l k t h b.0, All-Behind-mono l k ts h b.1)

All-set :
    (l i : ℕ) (ts : List Thread) (t : Thread)
    → All (Behind l) ts
    → Behind l t
    → All (Behind l) (set ts i t)
All-set l i [] t h b = tt
All-set l zero (x ∷ ts) t h b = (b, h.1)
All-set l (suc i) (x ∷ ts) t h b = (h.0, All-set l i ts t h.1 b)

All-get :
    (l i : ℕ) (ts : List Thread) (t : Thread)
    → All (Behind l) ts
    → get_elem? ts i ≡ some t
    → Behind l t
All-get l i [] t h e = cc
All-get l zero (x ∷ ts) t h e = subst (Behind l) (some-injective _ _ e) h.0
All-get l (suc i) (x ∷ ts) t h e = All-get l i ts t h.1 e

-- The location is the start value or the target of a thread.
abbrev pub Reached : ℕ → List Thread → ℕ → Type 0
Reached start ts l =
    (l ≡ start) ⊎ ((i : ℕ) × (t : Thread) × (get_elem? ts i ≡ some t) × (target t ≡ l))

get_elem?-set :
    (ts : List Thread) (i j : ℕ) (t u : Thread)
    → get_elem? ts j ≡ some t
    → get_elem? (set ts i u) j ≡ (if i == j then some u else some t)
get_elem?-set [] i j t u e = cc
get_elem?-set (x ∷ ts) zero zero t u e = ground arith
get_elem?-set (x ∷ ts) zero (suc j) t u e = ground arith
get_elem?-set (x ∷ ts) (suc i) zero t u e = ground arith
get_elem?-set (x ∷ ts) (suc i) (suc j) t u e = ground (arith, get_elem?-set ts i j t u)

-- A thread that moves on keeps its target.
Reached-set :
    (start l i : ℕ) (ts : List Thread) (t u : Thread)
    → get_elem? ts i ≡ some t
    → target u ≡ target t
    → Reached start ts l
    → Reached start (set ts i u) l
Reached-set start l i ts t u e same (inl h) = inl h
Reached-set start l i ts t u e same (inr (j, w, f, h)) = elim (Bool-cases (i == j)) [
  | inl hit ↦
      inr (
        j,
        u,
        get_elem?-set ts i j w u f ∙ rw hit,
        same ∙ ap target (same_thread (ground arith)) ∙ h,
      )
  | inr miss ↦ inr (j, w, get_elem?-set ts i j w u f ∙ rw miss, h)
]
  where
    same_thread : i ≡ j → t ≡ w
    same_thread p = some-injective t w (sym e ∙ ap (get_elem? ts) p ∙ f)

record IsSound (start : ℕ) (s : System) : Type 0 where
  grown : start ≤ s.location
  behind : All (Behind s.location) s.threads
  reached : Reached start s.threads s.location

Step-IsSound : {start : ℕ} {s t : System} → Step s t → IsSound start s → IsSound start t
Step-IsSound {start} {s} (load i new e) v = record {
  grown = v.grown;
  behind = All-set s.location i s.threads (looping new s.location) v.behind (omega arith);
  reached = Reached-set start s.location i s.threads _ _ e refl v.reached;
}
Step-IsSound {start} {s} (leave i new expected e h) v =
    let seen = All-get s.location i s.threads _ v.behind e in
    record {
      grown = v.grown;
      behind = All-set s.location i s.threads (returned new) v.behind (omega arith);
      reached = Reached-set start s.location i s.threads _ _ e refl v.reached;
    }
Step-IsSound {start} {s} (exchange i new expected e h same) v = record {
  grown = omega (arith, v.grown);
  behind =
      All-set new i s.threads (returned new)
        (All-Behind-mono s.location new s.threads (omega arith) v.behind) (omega arith);
  reached =
      inr (i, returned new, get_elem?-set s.threads i i _ (returned new) e ∙ rw (==_refl i), refl);
}
Step-IsSound {start} {s} (retry i new expected e h) v = record {
  grown = v.grown;
  behind = All-set s.location i s.threads (looping new s.location) v.behind (omega arith);
  reached = Reached-set start s.location i s.threads _ _ e refl v.reached;
}

Reach-IsSound : {start : ℕ} {s t : System} → IsSound start s → Reach s t → IsSound start t
Reach-IsSound v here = v
Reach-IsSound v (next r st) = Step-IsSound st (Reach-IsSound v r)

abbrev pub entering_all : List ℕ → List Thread
entering_all [] = []
entering_all (n ∷ ns) = entering n ∷ entering_all ns

entering_Behind : (l : ℕ) (ns : List ℕ) → All (Behind l) (entering_all ns)
entering_Behind l [] = tt
entering_Behind l (n ∷ ns) = (tt, entering_Behind l ns)

-- In every state that an interleaving of the writers of one file reaches, the location has not fallen
-- below its start, covers every write whose thread has returned, and is the start or the end of a
-- write of one of the threads.
pub location_sound :
    (start : ℕ) (ends : List ℕ) (s : System)
    → Reach (record { location = start; threads = entering_all ends }) s
    → (start ≤ s.location)
      × ((i new : ℕ) → get_elem? s.threads i ≡ some (returned new) → new ≤ s.location)
      × Reached start s.threads s.location
location_sound start ends s r =
    let v =
      Reach-IsSound
        (record { grown = omega arith; behind = entering_Behind start ends; reached = inl refl })
        r in
    (v.grown, (λ i new e. All-get s.location i s.threads (returned new) v.behind e), v.reached)
