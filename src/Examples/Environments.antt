-- ===== src/Examples/Environments.antt =====
-- Examples of environments.
use native.Mathlib.Omega.{arith}
use step_runner.Common.{
  Bool, List, str_eq, ℕ, zero, suc, String, ◌≡◌, refl, ◌<◌, none, some, [], ◌∷◌, Map, lookup,
  length, get_elem?, copy, put,
}
use step_runner.Environment.{
  Env, Heap, values, values_in, values_of, parent_values, mutation_values, new_environment,
  add_lexical_scope, mutate, append_mutation,
}
use step_runner.Environment.Precedence.{resolve, values-resolve}
use step_runner.Environment.Acyclic.{IsAcyclic, CellBelow}
use step_runner.Environment.Reachable.{start, new, scope, Reachable-values-total}
use step_runner.Environment.Sharing.{IsScoped, add_lexical_scope-IsScoped}
use step_runner.Environment.Exports.{IsSeen, mutate-IsSeen}
use step_runner.Examples.Data.{global_env}

abbrev child_env : Env
child_env = record { vars = ("NAME", "child") ∷ []; parent = some 0; mutations = [] }

abbrev exported_env : Env
exported_env = record { vars = ("LEVEL", "debug") ∷ []; parent = none; mutations = [] }

abbrev three_envs : Heap
three_envs = global_env ∷ child_env ∷ exported_env ∷ []

abbrev mutated : Heap
mutated = record global_env { mutations = 2 ∷ [] } ∷ child_env ∷ exported_env ∷ []

values-resolve_example :
    lookup "LEVEL" (("LEVEL", "debug") ∷ ("NAME", "child") ∷ [])
    ≡ resolve (length mutated) mutated 1 "LEVEL"
unfolding values values_in values_of parent_values mutation_values copy put
values-resolve_example =
    values-resolve mutated 1 "LEVEL" (("LEVEL", "debug") ∷ ("NAME", "child") ∷ []) refl

abbrev scoped : ℕ × Heap
scoped =
    add_lexical_scope 0 (("NAME", "child") ∷ []) (new_environment (("LEVEL", "info") ∷ []) []).1

Reachable-values-total_example : (m : Map String) × (values scoped.1 1 ≡ some m)
unfolding new_environment add_lexical_scope
Reachable-values-total_example =
    Reachable-values-total 1
      (scope 0 (("NAME", "child") ∷ []) (omega arith) (new (("LEVEL", "info") ∷ []) start))
      (omega arith)

add_lexical_scope-IsScoped_example :
    IsScoped
      (add_lexical_scope 0 (("NAME", "child") ∷ []) (global_env ∷ [])).1
      (add_lexical_scope 0 (("NAME", "child") ∷ []) (global_env ∷ [])).0
      0
      (("NAME", "child") ∷ [])
      (("LEVEL", "info") ∷ [])
      (("LEVEL", "info") ∷ [])
unfolding values values_in values_of parent_values mutation_values copy put
add_lexical_scope-IsScoped_example =
    add_lexical_scope-IsScoped 0 0 (("NAME", "child") ∷ []) (global_env ∷ [])
      (("LEVEL", "info") ∷ []) (("LEVEL", "info") ∷ []) refl refl

abbrev rank : ℕ → ℕ
rank zero = 1
rank (suc zero) = 2
rank (suc (suc a)) = 0

three_envs-IsAcyclic : IsAcyclic three_envs rank
three_envs-IsAcyclic = record { bounded = bounded; down = down }
  where
    bounded : (a : ℕ) → a < length three_envs → rank a < length three_envs
    bounded zero lt = omega arith
    bounded (suc zero) lt = omega arith
    bounded (suc (suc a)) lt = omega arith

    down :
        (a : ℕ) (e : Env) → get_elem? three_envs a ≡ some e → CellBelow rank three_envs (rank a) e
    down zero e at = let same : global_env ≡ e = ground arith in rw (← same) (tt, tt)
    down (suc zero) e at =
        let same : child_env ≡ e = ground arith in rw (← same) ((omega arith, omega arith), tt)
    down (suc (suc zero)) e at = let same : exported_env ≡ e = ground arith in rw (← same) (tt, tt)
    down (suc (suc (suc a))) e at = ground arith

mutate-IsSeen_example :
    IsSeen mutated 0 1 (("NAME", "child") ∷ []) (("LEVEL", "info") ∷ []) (("LEVEL", "debug") ∷ [])
unfolding values values_in mutate append_mutation values_of parent_values mutation_values copy put
mutate-IsSeen_example =
    mutate-IsSeen three_envs mutated rank 0 2 1 (("NAME", "child") ∷ []) (("LEVEL", "info") ∷ [])
      (("LEVEL", "debug") ∷ []) three_envs-IsAcyclic (omega arith, omega arith) refl refl refl refl

no_secret : List (String → Bool)
no_secret = (λ name. str_eq name "SECRET") ∷ []
