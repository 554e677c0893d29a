-- ===== src/Environment/Reachable.antt =====
-- Every operation on environments keeps the heap free of cycles.
use native.Mathlib.Omega.{arith}
use step_runner.Common.{
  ℕ, suc, ◌<◌, ◌==◌, String, ◌≡◌, inl, inr, Option, none, some, [], ◌∷◌, ◌++◌, Map, length,
  get_elem?, set, All-map, All-concat, if◌then◌else◌, Bool-cases, Option-cases, length-append,
  get_elem?-concat, lt-length-of_get_elem?, get_elem?-set, length-set,
}
use step_runner.Environment.{
  Env, Heap, >>=-eq-some, values, new_environment, add_lexical_scope, append_mutation, mutate,
}
use step_runner.Environment.Acyclic.{Below, ParentBelow, CellBelow, IsAcyclic, values-total}

-- The ranks after an environment with no pointers is put at the end: it ranks below all others.
abbrev pub rank_above : ℕ → (ℕ → ℕ) → ℕ → ℕ
rank_above n rank a = if a == n then 0 else suc (rank a)

-- The ranks after an environment that points to others is put at the end.
abbrev pub rank_last : ℕ → (ℕ → ℕ) → ℕ → ℕ
rank_last n rank a = if a == n then n else rank a

module _ (rank rank' : ℕ → ℕ) (h h' : Heap) (n n' : ℕ)
    (below : (b : ℕ) → Below rank h n b → Below rank' h' n' b) where
  ParentBelow-map : (p : Option ℕ) → ParentBelow rank h n p → ParentBelow rank' h' n' p
  ParentBelow-map none b = tt
  ParentBelow-map (some p) b = below p b

  CellBelow-map : (e : Env) → CellBelow rank h n e → CellBelow rank' h' n' e
  CellBelow-map e (p, ms) = (ParentBelow-map e.parent p, All-map e.mutations below ms)

-- A new last cell keeps the heap acyclic if the old pointers still go down, and so do its own.
module _ (h : Heap) (rank rank' : ℕ → ℕ) (cell : Env) (ac : IsAcyclic h rank)
    (kept : (a : ℕ)
      → a < length h
      → (b : ℕ) → Below rank h (rank a) b
      → Below rank' (h ++ cell ∷ []) (rank' a) b)
    (new : CellBelow rank' (h ++ cell ∷ []) (rank' (length h)) cell) where
  concat-down :
      (a : ℕ) (e : Env)
      → get_elem? (h ++ cell ∷ []) a ≡ some e
      → CellBelow rank' (h ++ cell ∷ []) (rank' a) e
  concat-down a e found = elim (Bool-cases (a == length h)) [
    | inl last ↦
        let at_end : a ≡ length h = ground arith in
        let same : cell ≡ e = ground (arith, get_elem?-concat h cell a) in rw (at_end, ← same) new
    | inr old ↦
        let before : get_elem? h a ≡ some e = ground (arith, get_elem?-concat h cell a) in
        CellBelow-map rank rank' h (h ++ cell ∷ []) (rank a) (rank' a)
          (kept a (lt-length-of_get_elem? h a e before)) e (ac.down a e before)
  ]

pub new_environment-IsAcyclic :
    (vars : Map String) (h : Heap) (rank : ℕ → ℕ)
    → IsAcyclic h rank
    → IsAcyclic (new_environment vars h).1 (rank_above (length h) rank)
unfolding new_environment
new_environment-IsAcyclic vars h rank ac = record {
  bounded = λ a lt. ground (arith, length-append h (cell ∷ []), ac.bounded a);
  down =
      concat-down h rank (rank_above (length h) rank) cell ac
        (λ a lt b below. ground (arith, length-append h (cell ∷ []), below.0, below.1)) (tt, tt);
}
  where
    cell : Env
    cell = record { vars = vars; parent = none; mutations = [] }

pub add_lexical_scope-IsAcyclic :
    (e : ℕ) (vars : Map String) (h : Heap) (rank : ℕ → ℕ)
    → e < length h
    → IsAcyclic h rank
    → (rank' : ℕ → ℕ) × IsAcyclic (add_lexical_scope e vars h).1 rank'
unfolding add_lexical_scope
add_lexical_scope-IsAcyclic e [] h rank lt ac = (rank, ac)
add_lexical_scope-IsAcyclic e (v ∷ vars) h rank lt ac = (
  rank_last (length h) rank,
  record {
    bounded = λ a lt. ground (arith, length-append h (cell ∷ []), ac.bounded a);
    down =
        concat-down h rank (rank_last (length h) rank) cell ac
          (λ a lt b below. ground (arith, length-append h (cell ∷ []), below.0, below.1))
          (ground (arith, length-append h (cell ∷ []), ac.bounded e lt), tt);
  },
)
  where
    cell : Env
    cell = record { vars = v ∷ vars; parent = some e; mutations = [] }

pub set-IsAcyclic :
    (e env : ℕ) (h : Heap) (rank : ℕ → ℕ) (cell : Env)
    → Below rank h (rank e) env
    → get_elem? h e ≡ some cell
    → IsAcyclic h rank
    → IsAcyclic (set h e (record cell { mutations = cell.mutations ++ env ∷ [] })) rank
set-IsAcyclic e env h rank cell below found ac = record {
  bounded = λ a lt. ground (arith, length-set h e changed, ac.bounded a);
  down = λ a x at. elim (Bool-cases (a == e)) [
    | inl here ↦
        let same_place : a ≡ e = ground arith in
        let same : changed ≡ x = ground (arith, get_elem?-set h e a changed within) in
        rw (same_place, ← same)
          (CellBelow-map rank rank h (set h e changed) (rank e) (rank e) moved changed (
            let (p, ms) = ac.down e cell found in
            (p, All-concat (Below rank h (rank e)) cell.mutations env ms below)))
    | inr other ↦
        CellBelow-map rank rank h (set h e changed) (rank a) (rank a) moved x
          (ac.down a x (ground (arith, get_elem?-set h e a changed within)))
  ];
}
  where
    changed : Env
    changed = record cell { mutations = cell.mutations ++ env ∷ [] }

    within : e < length h
    within = lt-length-of_get_elem? h e cell found

    moved : {n : ℕ} (b : ℕ) → Below rank h n b → Below rank (set h e changed) n b
    moved b lower = ground (arith, length-set h e changed, lower.0, lower.1)

pub append_mutation-IsAcyclic :
    (e env : ℕ) (h : Heap) (rank : ℕ → ℕ)
    → Below rank h (rank e) env
    → IsAcyclic h rank
    → IsAcyclic (append_mutation e env h) rank
unfolding append_mutation
append_mutation-IsAcyclic e env h rank below ac = elim (Option-cases (get_elem? h e)) [
  | inl missing ↦ rw (missing, append_mutation) ac
  | inr (cell, found) ↦ rw (found, append_mutation) (set-IsAcyclic e env h rank cell below found ac)
]

-- The heaps that the program builds: environments are made empty-handed or as a scope of another,
-- and a mutation is always an environment just read from an export file.
pub data Reachable : Heap → Type 0 where
  start : Reachable []
  new : {h : Heap} (vars : Map String) → Reachable h → Reachable (new_environment vars h).1
  scope :
      {h : Heap} (e : ℕ) (vars : Map String)
      → e < length h
      → Reachable h
      → Reachable (add_lexical_scope e vars h).1
  export :
      {h h' : Heap} (e : ℕ) (vars : Map String)
      → e < length h
      → Reachable h
      → mutate e (some (new_environment vars h).0) (new_environment vars h).1 ≡ some h'
      → Reachable h'

pub mutate-IsAcyclic :
    (e env : ℕ) (h h' : Heap) (rank : ℕ → ℕ)
    → Below rank h (rank e) env
    → IsAcyclic h rank
    → mutate e (some env) h ≡ some h'
    → IsAcyclic h' rank
unfolding mutate
mutate-IsAcyclic e env h h' rank below ac done =
    let (vs, read, wrote) =
      >>=-eq-some (values h env)
        (λ vs. some (if length vs == 0 then h else append_mutation e env h)) done in
    elim (Bool-cases (length vs == 0)) [
      | inl empty ↦ let same : h ≡ h' = ground arith in rw (← same) ac
      | inr full ↦
          let same : append_mutation e env h ≡ h' = ground arith in
          rw (← same) (append_mutation-IsAcyclic e env h rank below ac)
    ]

new_environment-Below :
    (e : ℕ) (vars : Map String) (h : Heap) (rank : ℕ → ℕ)
    → e < length h
    → Below
        (rank_above (length h) rank)
        (new_environment vars h).1
        (rank_above (length h) rank e)
        (new_environment vars h).0
unfolding new_environment
new_environment-Below e vars h rank lt = (
  omega (arith, length-append h (record { vars = vars; parent = none; mutations = [] } ∷ [])),
  ground arith,
)

pub Reachable-IsAcyclic : {h : Heap} → Reachable h → (rank : ℕ → ℕ) × IsAcyclic h rank
Reachable-IsAcyclic start = (λ a. a, record { bounded = λ a lt. lt; down = λ a e found. cc })
Reachable-IsAcyclic (new vars r) =
    let (rank, ac) = Reachable-IsAcyclic r in (_, new_environment-IsAcyclic vars _ rank ac)
Reachable-IsAcyclic (scope e vars lt r) =
    let (rank, ac) = Reachable-IsAcyclic r in add_lexical_scope-IsAcyclic e vars _ rank lt ac
Reachable-IsAcyclic (export e vars lt r done) =
    let (rank, ac) = Reachable-IsAcyclic r in
    (
      _,
      mutate-IsAcyclic e _ _ _ _ (new_environment-Below e vars _ rank lt)
          (new_environment-IsAcyclic vars _ rank ac) done,
    )

-- On every heap that the program builds, `Values` returns for every environment.
pub Reachable-values-total :
    {h : Heap} (a : ℕ) → Reachable h → a < length h → (m : Map String) × (values h a ≡ some m)
Reachable-values-total {h} a r lt =
    let (rank, ac) = Reachable-IsAcyclic r in values-total h rank a ac lt
