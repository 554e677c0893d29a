-- ===== src/Environment/Acyclic.antt =====
-- Environments whose pointers form no cycle: `Values` returns.
use native.Mathlib.Omega.{arith}
use step_runner.Common.{
  ℕ, zero, suc, ◌<◌, String, ◌≡◌, refl, Option, none, some, List, [], ◌∷◌, Map, copy, length,
  get_elem?, All, All-map, get_elem?-total,
}
use step_runner.Environment.{
  Env, Heap, parent_values, mutation_values, values_of, values_in, values,
}

-- What a pointer field of an environment of rank `n` may hold.
abbrev pub Below : (ℕ → ℕ) → Heap → ℕ → ℕ → Type 0
Below rank h n b = (b < length h) × (rank b < n)

abbrev pub ParentBelow : (ℕ → ℕ) → Heap → ℕ → Option ℕ → Type 0
ParentBelow rank h n none = Unit
ParentBelow rank h n (some p) = Below rank h n p

abbrev pub CellBelow : (ℕ → ℕ) → Heap → ℕ → Env → Type 0
CellBelow rank h n e = ParentBelow rank h n e.parent × All (Below rank h n) e.mutations

-- Every pointer goes to an environment of a smaller rank.
pub record IsAcyclic (h : Heap) (rank : ℕ → ℕ) : Type 0 where
  pub bounded : (a : ℕ) → a < length h → rank a < length h
  pub down : (a : ℕ) (e : Env) → get_elem? h a ≡ some e → CellBelow rank h (rank a) e

abbrev Defined : (ℕ → Option (Map String)) → ℕ → Type 0
Defined call a = (m : Map String) × (call a ≡ some m)

mutation_values-total :
    (call : ℕ → Option (Map String)) (ms : List ℕ) (start : Map String)
    → All (Defined call) ms
    → (r : Map String) × (mutation_values call start ms ≡ some r)
unfolding mutation_values
mutation_values-total call [] start h = (start, refl)
mutation_values-total call (m ∷ ms) start ((v, e), h) =
    rw e (mutation_values-total call ms (copy start v) h)

abbrev ParentDefined : (ℕ → Option (Map String)) → Option ℕ → Type 0
ParentDefined call none = Unit
ParentDefined call (some p) = Defined call p

parent_values-total :
    (call : ℕ → Option (Map String)) (p : Option ℕ)
    → ParentDefined call p
    → (r : Map String) × (parent_values call p ≡ some r)
unfolding parent_values
parent_values-total call none h = ([], refl)
parent_values-total call (some p) (m, e) = (copy [] m, rw e)

values_of-total :
    (call : ℕ → Option (Map String)) (e : Env)
    → ParentDefined call e.parent
    → All (Defined call) e.mutations
    → (r : Map String) × (values_of call (some e) ≡ some r)
unfolding values_of
values_of-total call e p ms =
    let (inherited, q) = parent_values-total call e.parent p in
    rw q (mutation_values-total call e.mutations (copy inherited e.vars) ms)

ParentBelow-Defined :
    (rank : ℕ → ℕ) (h : Heap) (n : ℕ) (call : ℕ → Option (Map String)) (p : Option ℕ)
    → ((b : ℕ) → Below rank h n b → Defined call b)
    → ParentBelow rank h n p
    → ParentDefined call p
ParentBelow-Defined rank h n call none f b = tt
ParentBelow-Defined rank h n call (some p) f b = f p b

pub values_in-total :
    (h : Heap) (rank : ℕ → ℕ) (fuel a : ℕ)
    → IsAcyclic h rank
    → a < length h
    → rank a < fuel
    → (m : Map String) × (values_in fuel h a ≡ some m)
unfolding values_in
values_in-total h rank zero a ac lt r = absurd (omega arith)
values_in-total h rank (suc fuel) a ac lt r =
    let (e, found) = get_elem?-total h a lt in
    let smaller : (b : ℕ) → Below rank h (rank a) b → Defined (values_in fuel h) b =
      λ b below. values_in-total h rank fuel b ac below.0 (omega arith) in
    rw found (
      values_of-total (values_in fuel h) e
        (ParentBelow-Defined rank h (rank a) (values_in fuel h) e.parent smaller
          (ac.down a e found).0)
        (All-map e.mutations smaller (ac.down a e found).1))

-- On a heap with no cycle `Values` returns, for every environment on it: as much nesting as there
-- are environments is enough.
pub values-total :
    (h : Heap) (rank : ℕ → ℕ) (a : ℕ)
    → IsAcyclic h rank
    → a < length h
    → (m : Map String) × (values h a ≡ some m)
unfolding values
values-total h rank a ac lt = values_in-total h rank (length h) a ac lt (ac.bounded a lt)
