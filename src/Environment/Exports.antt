-- ===== src/Environment/Exports.antt =====
-- A mutation of a shared environment is seen by the scopes that were added to it before.
use native.Mathlib.Omega.{arith}
use step_runner.Common.{
  ℕ, zero, suc, ◌<◌, ◌==◌, String, true, ◌≡◌, ◌≢◌, refl, ap, ◌≤◌, ◌-◌, inl, inr, Option, none, some,
  List, [], ◌∷◌, ◌++◌, Map, lookup, copy, lookup-copy, or_else, length, get_elem?, set,
  if◌then◌else◌, Bool-cases, Option-cases, lt-length-of_get_elem?, get_elem?-set, length-set,
  get_elem?-total,
}
use step_runner.Environment.{
  Env, Heap, >>=-eq-some, parent_values, mutation_values, values_of, values_in, values,
  append_mutation, mutate,
}
use step_runner.Environment.Acyclic.{Below, ParentBelow, IsAcyclic, values_in-total}
use step_runner.Environment.Reachable.{set-IsAcyclic}
use step_runner.Environment.Sharing.{OfParent, values_of_mono, values_in_mono}

mutation_values-concat :
    (call : ℕ → Option (Map String)) (ms : List ℕ) (x : ℕ) (start r v : Map String)
    → mutation_values call start ms ≡ some r
    → call x ≡ some v
    → mutation_values call start (ms ++ x ∷ []) ≡ some (copy r v)
unfolding mutation_values
mutation_values-concat call [] x start r v h e = ground arith
mutation_values-concat call (m ∷ ms) x start r v h e = elim (Option-cases (call m)) [
  | inl missing ↦ ground arith
  | inr (c, q) ↦ ground (arith, mutation_values-concat call ms x (copy start c) r v)
]

values_of-concat :
    (call : ℕ → Option (Map String)) (cell : Env) (x : ℕ) (r v : Map String)
    → values_of call (some cell) ≡ some r
    → call x ≡ some v
    → values_of call (some (record cell { mutations = cell.mutations ++ x ∷ [] })) ≡ some (copy r v)
unfolding values_of
values_of-concat call cell x r v h e =
    let (inherited, q, done) =
      >>=-eq-some (parent_values call cell.parent)
        (λ inherited. mutation_values call (copy inherited cell.vars) cell.mutations) h in
    rw q (mutation_values-concat call cell.mutations x (copy inherited cell.vars) r v done e)

OfParent-Below :
    (rank : ℕ → ℕ) (h : Heap) (n : ℕ) (p : Option ℕ)
    → ParentBelow rank h n p
    → OfParent (Below rank h n) p
OfParent-Below rank h n none b = tt
OfParent-Below rank h n (some p) b = b

-- The same environment read with more fuel has the same values.
values_in-agree :
    (fuel : ℕ) (h : Heap) (a : ℕ) (m n : Map String)
    → fuel ≤ length h
    → values_in fuel h a ≡ some m
    → values h a ≡ some n
    → m ≡ n
unfolding values
values_in-agree fuel h a m n le p q =
    ground (arith, values_in_mono fuel (length h) h h a m le (λ b e found. found) p)

-- The nesting that is left below a call for an environment.
room :
    (h : Heap) (rank : ℕ → ℕ) (a : ℕ)
    → IsAcyclic h rank
    → a < length h
    → (fuel : ℕ) × (length h ≡ suc fuel) × (rank a < suc fuel)
room h rank a ac lt = (length h - 1, omega (arith, ac.bounded a lt), omega (arith, ac.bounded a lt))

-- A scope has its own variables over the values of the environment that it was added to.
values-child :
    (h : Heap) (rank : ℕ → ℕ) (c g : ℕ) (vars m : Map String)
    → IsAcyclic h rank
    → get_elem? h c ≡ some (record { vars = vars; parent = some g; mutations = [] })
    → values h g ≡ some m
    → values h c ≡ some (copy (copy [] m) vars)
unfolding values values_in values_of parent_values mutation_values
values-child h rank c g vars m ac at_c read =
    let (fuel, size, fits) = room h rank c ac (lt-length-of_get_elem? h c _ at_c) in
    let lower : (g < length h) × (rank g < rank c) = (ac.down c _ at_c).0 in
    let inherited : values_in fuel h g ≡ some m =
      let (n, e) = values_in-total h rank fuel g ac lower.0 (omega arith) in
      let same : n ≡ m = values_in-agree fuel h g n m (omega arith) e read in rw same at e in
    rw (size, at_c, inherited)

module _ (h : Heap) (rank : ℕ → ℕ) (ac : IsAcyclic h rank) (g x : ℕ) (shared : Env)
    (found : get_elem? h g ≡ some shared) (below : Below rank h (rank g) x) where
  abbrev changed : Heap
  changed = set h g (record shared { mutations = shared.mutations ++ x ∷ [] })

  get_elem?-changed :
      (a : ℕ)
      → get_elem? changed a ≡ (
          if a == g
          then some (record shared { mutations = shared.mutations ++ x ∷ [] })
          else get_elem? h a)
  get_elem?-changed a = get_elem?-set h g a _ (lt-length-of_get_elem? h g shared found)

  -- An environment of a smaller rank than the one that changes keeps its values.
  values_in-lower :
      (fuel a : ℕ) (m : Map String)
      → rank a < rank g
      → values_in fuel h a ≡ some m
      → values_in fuel changed a ≡ some m
  unfolding values_in
  values_in-lower zero a m lt e = cc
  values_in-lower (suc fuel) a m lt e = elim (Option-cases (get_elem? h a)) [
    | inl missing ↦ unfold values_of in cc
    | inr (cell, at) ↦
        let there : get_elem? changed a ≡ some cell = elim (Bool-cases (a == g)) [
          | inl same ↦
              let s : a ≡ g = ground arith in
              absurd (let k : rank a ≡ rank g = ap rank s in omega arith)
          | inr other ↦ ground (arith, get_elem?-changed a)
        ] in
        rw there (
          values_of_mono (Below rank h (rank a)) (values_in fuel h) (values_in fuel changed)
            (λ b n low. values_in-lower fuel b n (omega arith)) cell m
            (OfParent-Below rank h (rank a) cell.parent (ac.down a cell at).0) (ac.down a cell at).1
            (rw at at e))
  ]

  changed-IsAcyclic : IsAcyclic changed rank
  changed-IsAcyclic = set-IsAcyclic g x h rank shared below found ac

  get_elem?-changed_here :
      get_elem? changed g ≡ some (record shared { mutations = shared.mutations ++ x ∷ [] })
  get_elem?-changed_here = ground (arith, get_elem?-changed g)

  length-changed : length changed ≡ length h
  length-changed = length-set h g _

  -- The environment that changes has the values of the mutation over its own.
  values-changed :
      (mg mx : Map String)
      → values h g ≡ some mg
      → values h x ≡ some mx
      → values changed g ≡ some (copy mg mx)
  unfolding values values_in
  values-changed mg mx eg ex =
      let (fuel, size, fits) = room h rank g ac (lt-length-of_get_elem? h g shared found) in
      let at_x : values_in fuel changed x ≡ some mx =
        let (m, e) = values_in-total h rank fuel x ac below.0 (omega arith) in
        let same : m ≡ mx = values_in-agree fuel h x m mx (omega arith) e ex in
        rw same at (values_in-lower fuel x m below.1 e) in
      let own : values_of (values_in fuel h) (some shared) ≡ some mg =
        rw found at (rw size at eg) in
      let kept : values_of (values_in fuel changed) (some shared) ≡ some mg =
        values_of_mono (Below rank h (rank g)) (values_in fuel h) (values_in fuel changed)
          (λ b n low. values_in-lower fuel b n low.1) shared mg
          (OfParent-Below rank h (rank g) shared.parent (ac.down g shared found).0)
          (ac.down g shared found).1 own in
      rw (length-changed, size, get_elem?-changed_here)
        (values_of-concat (values_in fuel changed) shared x mg mx kept at_x)

-- What a key has in an environment after a mutation, and in a scope added to it before.
pub record IsSeen (h' : Heap) (g c : ℕ) (vars mg mx : Map String) : Type 0 where
  pub shared : Map String
  pub reads_shared : values h' g ≡ some shared
  pub in_shared : (key : String) → lookup key shared ≡ or_else (lookup key mx) (lookup key mg)
  pub child : Map String
  pub reads_child : values h' c ≡ some child
  pub in_child :
      (key : String)
      → lookup key child ≡ or_else (lookup key vars) (or_else (lookup key mx) (lookup key mg))

lookup-empty : (m : Map String) (key : String) → (length m == 0) ≡ true → lookup key m ≡ none
unfolding lookup
lookup-empty [] key e = refl
lookup-empty (b ∷ m) key e = ground arith

lookup-child :
    (key : String) (vars m : Map String)
    → lookup key (copy (copy [] m) vars) ≡ or_else (lookup key vars) (lookup key m)
lookup-child key vars m =
    ground (arith, lookup-copy key (copy [] m) vars, lookup-copy key [] m, lookup-empty [] key)

-- Mutate with an environment `x` of values: in the environment that is mutated, and in a scope that
-- was added to it before, a key has the value of `x` unless the scope itself has the key; without
-- one in `x` it has the value that it had.
pub mutate-IsSeen :
    (h h' : Heap) (rank : ℕ → ℕ) (g x c : ℕ) (vars mg mx : Map String)
    → IsAcyclic h rank
    → Below rank h (rank g) x
    → get_elem? h c ≡ some (record { vars = vars; parent = some g; mutations = [] })
    → values h g ≡ some mg
    → values h x ≡ some mx
    → mutate g (some x) h ≡ some h'
    → IsSeen h' g c vars mg mx
unfolding mutate append_mutation
mutate-IsSeen h h' rank g x c vars mg mx ac below at_c eg ex done =
    let (shared, found) = get_elem?-total h g (ac.down c _ at_c).0.0 in
    elim (Bool-cases (length mx == 0)) [
      | inl empty ↦
          let same : h ≡ h' = ground arith in
          rw (← same) (record {
            shared = mg;
            reads_shared = eg;
            in_shared = λ key. ground (arith, lookup-empty mx key empty);
            child = copy (copy [] mg) vars;
            reads_child = values-child h rank c g vars mg ac at_c eg;
            in_child = λ key. ground (arith, lookup-empty mx key empty, lookup-child key vars mg);
          })
      | inr full ↦
          let same : changed h rank ac g x shared found below ≡ h' = ground arith in
          let next = changed h rank ac g x shared found below in
          let acyclic = changed-IsAcyclic h rank ac g x shared found below in
          let moved : c ≢ g = λ (e : c ≡ g).
            let k : rank c ≡ rank g = ap rank e in
            absurd (let low : rank g < rank c = (ac.down c _ at_c).0.1 in omega arith) in
          let at_c' : get_elem? next c
              ≡ some (record { vars = vars; parent = some g; mutations = [] }) =
            ground (arith, get_elem?-changed h rank ac g x shared found below c) in
          let read = values-changed h rank ac g x shared found below mg mx eg ex in
          rw (← same) (record {
            shared = copy mg mx;
            reads_shared = read;
            in_shared = λ key. lookup-copy key mg mx;
            child = copy (copy [] (copy mg mx)) vars;
            reads_child = values-child next rank c g vars (copy mg mx) acyclic at_c' read;
            in_child =
                λ key. ground (arith, lookup-child key vars (copy mg mx), lookup-copy key mg mx);
          })
    ]
