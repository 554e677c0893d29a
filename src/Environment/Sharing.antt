-- ===== src/Environment/Sharing.antt =====
-- What an operation on one environment does to the values of the others that share the heap.
use native.Mathlib.Omega.{arith}
use step_runner.Common.{
  ℕ, zero, suc, ◌≤◌, String, ◌≡◌, refl, inl, inr, Option, none, some, List, [], ◌∷◌, ◌++◌, Map,
  lookup, copy, lookup-copy, or_else, length, get_elem?, All, Option-cases, length-append,
  get_elem?-concat, lt-length-of_get_elem?,
}
use step_runner.Environment.{
  Env, Heap, >>=-eq-some, parent_values, mutation_values, values_of, values_in, values,
  add_lexical_scope,
}

lookup-nil : (key : String) → lookup {V = String} key [] ≡ none
unfolding lookup
lookup-nil key = refl

or_else-none : (o : Option String) → or_else o none ≡ o
or_else-none none = refl
or_else-none (some v) = refl

-- What a pointer field holds, if it holds anything.
abbrev pub OfParent : (ℕ → Type 0) → Option ℕ → Type 0
OfParent P none = Unit
OfParent P (some p) = P p

-- A call that answers at least as often where `P` holds, with the same answers.
abbrev pub Extends : (ℕ → Type 0) → (ℕ → Option (Map String)) → (ℕ → Option (Map String)) → Type 0
Extends P call call' = (a : ℕ) (m : Map String) → P a → call a ≡ some m → call' a ≡ some m

module _ (P : ℕ → Type 0) (call call' : ℕ → Option (Map String)) (more : Extends P call call') where
  parent_values_mono :
      (p : Option ℕ) (r : Map String)
      → OfParent P p
      → parent_values call p ≡ some r
      → parent_values call' p ≡ some r
  unfolding parent_values
  parent_values_mono none r b h = h
  parent_values_mono (some p) r b h = elim (Option-cases (call p)) [
    | inl missing ↦ ground arith
    | inr (m, e) ↦ ground (arith, more p m b e)
  ]

  mutation_values_mono :
      (ms : List ℕ) (start r : Map String)
      → All P ms
      → mutation_values call start ms ≡ some r
      → mutation_values call' start ms ≡ some r
  unfolding mutation_values
  mutation_values_mono [] start r b h = h
  mutation_values_mono (m ∷ ms) start r (b, bs) h = elim (Option-cases (call m)) [
    | inl missing ↦ ground arith
    | inr (v, e) ↦ ground (arith, more m v b e, mutation_values_mono ms (copy start v) r bs)
  ]

  pub values_of_mono :
      (e : Env) (r : Map String)
      → OfParent P e.parent
      → All P e.mutations
      → values_of call (some e) ≡ some r
      → values_of call' (some e) ≡ some r
  unfolding values_of
  values_of_mono e r b bs h =
      let (inherited, q, done) =
        >>=-eq-some (parent_values call e.parent)
          (λ inherited. mutation_values call (copy inherited e.vars) e.mutations) h in
      rw (parent_values_mono e.parent inherited b q)
        (mutation_values_mono e.mutations (copy inherited e.vars) r bs done)

abbrev Anywhere : ℕ → Type 0
Anywhere a = Unit

OfParent-Anywhere : (p : Option ℕ) → OfParent Anywhere p
OfParent-Anywhere none = tt
OfParent-Anywhere (some p) = tt

All-Anywhere : (ms : List ℕ) → All Anywhere ms
All-Anywhere [] = tt
All-Anywhere (m ∷ ms) = (tt, All-Anywhere ms)

-- A heap with the same cells, and perhaps more.
abbrev Grows : Heap → Heap → Type 0
Grows h h' = (a : ℕ) (e : Env) → get_elem? h a ≡ some e → get_elem? h' a ≡ some e

pub values_in_mono :
    (fuel fuel' : ℕ) (h h' : Heap) (a : ℕ) (m : Map String)
    → fuel ≤ fuel'
    → Grows h h'
    → values_in fuel h a ≡ some m
    → values_in fuel' h' a ≡ some m
unfolding values_in
values_in_mono zero fuel' h h' a m le g e = cc
values_in_mono (suc fuel) zero h h' a m le g e = absurd (omega arith)
values_in_mono (suc fuel) (suc fuel') h h' a m le g e = elim (Option-cases (get_elem? h a)) [
  | inl missing ↦ unfold values_of in cc
  | inr (cell, found) ↦ rw (g a cell found) (
      values_of_mono Anywhere (values_in fuel h) (values_in fuel' h')
        (λ b n _. values_in_mono fuel fuel' h h' b n (omega arith) g) cell m
        (OfParent-Anywhere cell.parent) (All-Anywhere cell.mutations) (rw found at e))
]

Grows-concat : (h : Heap) (cell : Env) → Grows h (h ++ cell ∷ [])
Grows-concat h cell a e found =
    ground (arith, get_elem?-concat h cell a, lt-length-of_get_elem? h a e)

pub values-concat :
    (h : Heap) (cell : Env) (a : ℕ) (m : Map String)
    → values h a ≡ some m
    → values (h ++ cell ∷ []) a ≡ some m
unfolding values
values-concat h cell a m e =
    values_in_mono (length h) (length (h ++ cell ∷ [])) h (h ++ cell ∷ []) a m
      (omega (arith, length-append h (cell ∷ []))) (Grows-concat h cell) e

-- The environment put last sees its parent's values through its own.
values-last :
    (h : Heap) (vars : Map String) (e : ℕ) (m : Map String)
    → values h e ≡ some m
    → values (h ++ record { vars = vars; parent = some e; mutations = [] } ∷ []) (length h)
      ≡ some (copy (copy [] m) vars)
unfolding values values_in values_of parent_values mutation_values
values-last h vars e m read =
    let cell : Env = record { vars = vars; parent = some e; mutations = [] } in
    let last : get_elem? (h ++ cell ∷ []) (length h) ≡ some cell =
      ground (arith, get_elem?-concat h cell (length h)) in
    let longer : length (h ++ cell ∷ []) ≡ suc (length h) =
      omega (arith, length-append h (cell ∷ [])) in
    let inherited : values_in (length h) (h ++ cell ∷ []) e ≡ some m =
      values_in_mono (length h) (length h) h (h ++ cell ∷ []) e m (omega arith)
        (Grows-concat h cell) read in
    rw (longer, last, inherited)

-- What is read on the heap `h'` in the environment `e'` that a scope was added as, and in another.
pub record IsScoped (h' : Heap) (e' a : ℕ) (vars m n : Map String) : Type 0 where
  pub scoped : Map String
  pub reads_scoped : values h' e' ≡ some scoped
  pub in_scope : (key : String) → lookup key scoped ≡ or_else (lookup key vars) (lookup key m)
  pub reads_other : values h' a ≡ some n

-- AddLexicalScope: a key has in the new environment the value that the scope gives it, else the one
-- of the environment that it is added to. An environment that was there keeps its values.
pub add_lexical_scope-IsScoped :
    (e a : ℕ) (vars : Map String) (h : Heap) (m n : Map String)
    → values h e ≡ some m
    → values h a ≡ some n
    → IsScoped (add_lexical_scope e vars h).1 (add_lexical_scope e vars h).0 a vars m n
unfolding add_lexical_scope
add_lexical_scope-IsScoped e a [] h m n read other = record {
  scoped = m;
  reads_scoped = read;
  in_scope = λ key. unfold lookup in refl;
  reads_other = other;
}
add_lexical_scope-IsScoped e a (v ∷ vars) h m n read other = record {
  scoped = copy (copy [] m) (v ∷ vars);
  reads_scoped = values-last h (v ∷ vars) e m read;
  in_scope = λ key. ground (
    arith,
    lookup-copy key (copy [] m) (v ∷ vars),
    lookup-copy key [] m,
    lookup-nil key,
    or_else-none (lookup key m),
  );
  reads_other = values-concat h _ a n other;
}
