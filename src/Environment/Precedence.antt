-- ===== src/Environment/Precedence.antt =====
-- `Values` merges maps; `resolve` looks one key up through the scopes, merging nothing.
use step_runner.Common.{
  ℕ, zero, suc, String, ◌≡◌, inl, inr, Option, none, some, List, [], ◌∷◌, arith, Map, lookup, copy,
  lookup-copy, length, get_elem?, or_else, Option-cases,
}
use step_runner.Environment.{
  Env, Heap, >>=-eq-some, parent_values, mutation_values, values_of, values_in, values,
}

-- The most recent mutation that has the key, else the environment's own variable, else the
-- parent's.
module _ (call : ℕ → Option String) where
  pub last_mutation : List ℕ → Option String
  last_mutation [] = none
  last_mutation (m ∷ ms) = or_else (last_mutation ms) (call m)

  pub from_parent : Option ℕ → Option String
  from_parent none = none
  from_parent (some p) = call p

  pub resolve_at : String → Option Env → Option String
  unfolding last_mutation from_parent
  resolve_at key none = none
  resolve_at key (some e) =
      or_else (last_mutation e.mutations) (or_else (lookup key e.vars) (from_parent e.parent))

pub resolve : ℕ → Heap → ℕ → String → Option String
unfolding resolve_at
resolve zero h a key = none
resolve (suc fuel) h a key = resolve_at (λ b. resolve fuel h b key) key (get_elem? h a)

-- What a call for the values and a call for one key have in common.
abbrev Agrees : (ℕ → Option (Map String)) → (ℕ → Option String) → String → Type 0
Agrees call found key = (a : ℕ) (m : Map String) → call a ≡ some m → lookup key m ≡ found a

module _ (call : ℕ → Option (Map String)) (found : ℕ → Option String) (key : String)
    (agrees : Agrees call found key) where
  mutation_values-last_mutation :
      (ms : List ℕ) (start r : Map String)
      → mutation_values call start ms ≡ some r
      → lookup key r ≡ or_else (last_mutation found ms) (lookup key start)
  unfolding mutation_values last_mutation
  mutation_values-last_mutation [] start r h = ground arith
  mutation_values-last_mutation (m ∷ ms) start r h = elim (Option-cases (call m)) [
    | inl missing ↦ ground arith
    | inr (changed, e) ↦ ground (
      arith,
      mutation_values-last_mutation ms (copy start changed) r,
      agrees m changed e,
      lookup-copy key start changed,
    )
  ]

  parent_values-from_parent :
      (p : Option ℕ) (r : Map String)
      → parent_values call p ≡ some r
      → lookup key r ≡ from_parent found p
  unfolding parent_values from_parent lookup
  parent_values-from_parent none r h = ground arith
  parent_values-from_parent (some p) r h = elim (Option-cases (call p)) [
    | inl missing ↦ ground arith
    | inr (m, e) ↦ ground (arith, agrees p m e, lookup-copy key [] m)
  ]

  values_of-resolve_at :
      (e : Option Env) (r : Map String)
      → values_of call e ≡ some r
      → lookup key r ≡ resolve_at found key e
  unfolding values_of resolve_at
  values_of-resolve_at none r h = cc
  values_of-resolve_at (some e) r h =
      let (inherited, q, done) =
        >>=-eq-some (parent_values call e.parent)
          (λ inherited. mutation_values call (copy inherited e.vars) e.mutations) h in
      ground (
        arith,
        mutation_values-last_mutation e.mutations (copy inherited e.vars) r done,
        parent_values-from_parent e.parent inherited q,
        lookup-copy key inherited e.vars,
      )

pub values_in-resolve :
    (fuel : ℕ) (h : Heap) (a : ℕ) (key : String) (m : Map String)
    → values_in fuel h a ≡ some m
    → lookup key m ≡ resolve fuel h a key
unfolding values_in resolve
values_in-resolve zero h a key m e = cc
values_in-resolve (suc fuel) h a key m e =
    values_of-resolve_at (values_in fuel h) (λ b. resolve fuel h b key) key
      (λ b n. values_in-resolve fuel h b key n) (get_elem? h a) m e

-- Whatever `Values` returns, a key has in it the value that scoping gives it: that of the most
-- recent mutation that has the key, else of the environment's own variable, else of the parent.
pub values-resolve :
    (h : Heap) (a : ℕ) (key : String) (m : Map String)
    → values h a ≡ some m
    → lookup key m ≡ resolve (length h) h a key
unfolding values
values-resolve h a key m e = values_in-resolve (length h) h a key m e
