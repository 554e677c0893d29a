-- ===== src/Environment.antt =====
-- pkg/runner/environment.go: scoped environments with mutations. Environments are shared through
-- pointers, so they live on a heap: an address is a position, and a new one is put at the end.
pub mod Precedence
pub mod Acyclic
pub mod Reachable
pub mod Sharing
pub mod Exports
pub mod FromOs
pub mod Names
use step_runner.Common.{
  ℕ, zero, suc, String, ◌≡◌, refl, Option, none, some, List, [], ◌∷◌, ◌++◌, Map, lookup, copy,
  length, get_elem?, set, text_at, if◌then◌else◌, ◌==◌,
}
use mathlib.Core.Option
pub use step_runner.Common.Options.{◌>>=◌, >>=-eq-some}

pub record Env : Type 0 where
  pub vars : Map String
  pub parent : Option ℕ
  pub mutations : List ℕ

abbrev pub Heap : Type 0
Heap = List Env

-- The three parts of `Values`, over the call for another environment. `none` is a dangling
-- pointer or a call that does not return.
module _ (call : ℕ → Option (Map String)) where
  unfoldable pub parent_values : Option ℕ → Option (Map String)
  parent_values none = some []
  parent_values (some p) = Option.map (copy []) (call p)

  unfoldable pub mutation_values : Map String → List ℕ → Option (Map String)
  mutation_values values [] = some values
  mutation_values values (m ∷ ms) = do changed ← call m; mutation_values (copy values changed) ms

  unfoldable pub values_of : Option Env → Option (Map String)
  values_of none = none
  values_of (some e) = do
    inherited ← parent_values e.parent
    mutation_values (copy inherited e.vars) e.mutations

-- The calls of `Values` nest at most as deep as the fuel.
unfoldable pub values_in : ℕ → Heap → ℕ → Option (Map String)
values_in zero h a = none
values_in (suc fuel) h a = values_of (values_in fuel h) (get_elem? h a)

-- Without a cycle the calls nest at most as deep as there are environments.
unfoldable pub values : Heap → ℕ → Option (Map String)
values h a = values_in (length h) h a

-- ValueOf: "" if the key is missing
unfoldable pub value_of : Heap → ℕ → String → Option String
value_of h a key = Option.map (λ m. text_at key m) (values h a)

unfoldable pub new_environment : Map String → Heap → ℕ × Heap
new_environment vars h = (length h, h ++ record { vars = vars; parent = none; mutations = [] } ∷ [])

unfoldable pub add_lexical_scope : ℕ → Map String → Heap → ℕ × Heap
add_lexical_scope e [] h = (e, h)
add_lexical_scope e (v ∷ vars) h =
    (length h, h ++ record { vars = v ∷ vars; parent = some e; mutations = [] } ∷ [])

-- e.mutations = append(e.mutations, env)
unfoldable pub append_mutation : ℕ → ℕ → Heap → Heap
append_mutation e env h = elim (get_elem? h e) [
  | none ↦ h
  | some cell ↦ set h e (record cell { mutations = cell.mutations ++ env ∷ [] })
]

-- Mutate. A missing environment (`nil`) and an environment with no values change nothing
unfoldable pub mutate : ℕ → Option ℕ → Heap → Option Heap
unfolding append_mutation
mutate e none h = some h
mutate e (some env) h = do
  vs ← values h env
  some (if length vs == 0 then h else append_mutation e env h)
