-- ===== src/Commands/Separated.antt =====
-- cmd/ci/ci.go: the variables of the process that are the job's, and those that a step sees.
use native.Mathlib.Omega.{arith}
use step_runner.Common.{
  has_prefix, ◌||◌, all, String, ◌≡◌, refl, sym, ap, ◌∙◌, Bool, true, false, not, Bool-cases,
  Option, none, some, Option-cases, List, [], ◌∷◌, Map, lookup, lookup-put, or_else, str_eq, eq_iff,
  if◌then◌else◌, Result, ok, err, inl, inr,
}
use step_runner.Environment.FromOs.{accept_env_name, contains_text, known_vars}
use step_runner.Environment.Names.{has_names, after_accept, last_value, cut-append}
use step_runner.Runner.Host.{State, Host}
use step_runner.Runner.Context.{GlobalContext, env_list}
use step_runner.Jobs.Opening.{Machine}
use step_runner.Commands.Run.{Calls, os_global_env}
use step_runner.Commands.Ci.{
  keep_variable, is_job_variable, job_variables_from, find_job_variables, new_ci_options,
  ci_global_ctx,
}
use step_runner.Commands.Isolated.{
  has_any, ci_prefixes, Accepts, or_else-none, os_global_env-Accepts,
}

any_of_three : (a b c : Bool) → (a || b || c) ≡ (a || (b || (c || false)))
any_of_three true b c = refl
any_of_three false true c = refl
any_of_three false false true = refl
any_of_three false false false = refl

is_job_variable-has_any : (k : String) → is_job_variable k ≡ has_any ci_prefixes k
unfolding is_job_variable
is_job_variable-has_any k =
    any_of_three (has_prefix k "CI_") (has_prefix k "GITLAB_") (has_prefix k "DOCKER_")

known :
    (k : String)
    → accept_env_name k ((λ name. not (contains_text known_vars name)) ∷ [])
      ≡ contains_text known_vars k
unfolding accept_env_name
known k = ground arith

lookup-keep_variable :
    (j k v : String) (variables : Map String)
    → (if is_job_variable k
        then lookup k (keep_variable (is_job_variable j) j v variables)
        else lookup k (keep_variable (is_job_variable j) j v variables))
      ≡ (if is_job_variable k
          then or_else (if str_eq j k then some v else none) (lookup k variables)
          else lookup k variables)
lookup-keep_variable j k v variables = elim (Bool-cases (str_eq j k)) [
  | inl q ↦
      let same : is_job_variable j ≡ is_job_variable k = ap is_job_variable ((eq_iff j k).0 q) in
      let e = lookup-put j k v variables in ground arith
  | inr q ↦ let e = lookup-put j k v variables in ground arith
]

job_variables_from-env_list :
    (m variables : Map String) (k : String)
    → has_names m ≡ true
    → lookup k (job_variables_from variables (env_list m)) ≡ (
        if is_job_variable k
        then or_else (last_value k m) (lookup k variables)
        else lookup k variables)
unfolding job_variables_from has_names last_value
job_variables_from-env_list [] variables k h = ground arith
job_variables_from-env_list ((j, v) ∷ m) variables k h =
    let next = keep_variable (is_job_variable j) j v variables in
    let first = cut-append j v (ground arith) in
    let rest = job_variables_from-env_list m next k (ground arith) in
    rw (first, job_variables_from)
      (rest
        ∙ after_accept (is_job_variable k) (last_value k m) (lookup k next)
            (if str_eq j k then some v else none) (lookup k variables)
            (lookup-keep_variable j k v variables))

without_none :
    (accept : Bool) (o : Option String)
    → (if accept then or_else o none else none) ≡ (if accept then o else none)
without_none true o = or_else-none o
without_none false o = refl

contains_text-not_job :
    (ts : List String) (k : String)
    → all (λ t. not (is_job_variable t)) ts ≡ true
    → contains_text ts k ≡ true
    → is_job_variable k ≡ false
unfolding contains_text
contains_text-not_job [] k h q = cc
contains_text-not_job (t ∷ ts) k h q = elim (Bool-cases (str_eq t k)) [
  | inl same ↦
      let e : is_job_variable t ≡ is_job_variable k = ap is_job_variable ((eq_iff t k).0 same) in
      ground arith
  | inr other ↦ contains_text-not_job ts k (ground arith) (ground arith)
]

known_vars-not_job : all (λ t. not (is_job_variable t)) known_vars ≡ true
unfolding is_job_variable
known_vars-not_job = refl

-- The variables of the job, where the name is one of a job's variable the process's last value.
abbrev pub IsJob : Map String → Map String → Type 0
IsJob job m = (k : String) → lookup k job ≡ (if has_any ci_prefixes k then last_value k m else none)

module _ {W : Type 0} (host : Host W) (machine : Machine W) (calls : Calls W) where
  -- What the command ci makes of the variables of its process, if no name has an equality sign: the
  -- variables of the job are the process's with a job's prefix (CI_, GITLAB_, DOCKER_), each with
  -- its last value; the environment of the steps has a supported log level and else only the known
  -- variables of the process, with their last values; and no known variable is one of a job.
  pub ci_global_ctx-Accepts :
      (m : Map String) (getenv : String → Option String) (current : Result String) (write : Bool)
      (s s' : State W) (g : GlobalContext)
      → has_names m ≡ true
      → ci_global_ctx host machine calls
          (env_list m)
          (new_ci_options getenv current (env_list m) write)
          s
        ≡ some (ok g, s')
      → IsJob g.job m
        × Accepts s' g.env (contains_text known_vars) m
        × ((k : String) → contains_text known_vars k ≡ true → has_any ci_prefixes k ≡ false)
  unfolding ci_global_ctx new_ci_options find_job_variables lookup
  ci_global_ctx-Accepts m getenv current write s s' g named h =
      let reject_if : List (String → Bool) = (λ name. not (contains_text known_vars name)) ∷ [] in
      elim (Option-cases (
        os_global_env host machine calls reject_if (find_job_variables (env_list m)) (env_list m)
          s)) [
            | inl never ↦ absurd (ground arith)
            | inr ((err e, s1), failed) ↦ absurd (ground arith)
            | inr ((ok e, s1), made) ↦
                let env : g.env ≡ e = ground arith in
                let same : s' ≡ s1 = ground arith in
                let job : g.job ≡ find_job_variables (env_list m) = ground arith in
                (
                  λ k.
                      ap (lookup k) job
                      ∙ job_variables_from-env_list m [] k named
                      ∙ without_none (is_job_variable k) (last_value k m)
                      ∙ ap (λ a. if a then last_value k m else none) (is_job_variable-has_any k),
                  rw (env, same)
                      (os_global_env-Accepts host machine calls reject_if (contains_text known_vars)
                        (find_job_variables (env_list m)) m s s1 e known named made),
                  λ k q.
                      sym (is_job_variable-has_any k)
                      ∙ contains_text-not_job known_vars k known_vars-not_job q,
                )
          ]
