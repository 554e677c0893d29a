-- ===== src/Commands/Isolated.antt =====
-- cmd/run/run.go: which variables of the process a step sees.
use native.Mathlib.Omega.{arith}
use step_runner.Common.{
  has_prefix, ◌||◌, ℕ, String, ◌≡◌, refl, sym, ap, ◌∙◌, Bool, true, false, not, Option, none, some,
  Option-cases, List, [], ◌∷◌, Map, lookup, lookup-copy, copy, or_else, str_eq, if◌then◌else◌,
  Result-cases, ok, err, inl, inr,
}
use step_runner.Environment.{values, new_environment}
use step_runner.Environment.FromOs.{accept_env_name, vars_from, new_environment_from_os}
use step_runner.Environment.Names.{has_names, last_value, vars_from-last_value}
use step_runner.Runner.Host.{State, Host}
use step_runner.Runner.Context.{GlobalContext, env_list}
use step_runner.Runner.GlobalEnv.{log_level_env_name, global_environment}
use step_runner.Runner.GlobalEnv.Level.{is_level, values-new, global_environment-HasLevel}
use step_runner.Jobs.Opening.{Machine}
use step_runner.Commands.Flags.{Options, exclude_job_vars}
use step_runner.Commands.Run.{Calls, os_global_env, create_global_ctx}

-- The name starts with one of the prefixes.
abbrev pub has_any : List String → String → Bool
has_any [] name = false
has_any (p ∷ ps) name = has_prefix name p || has_any ps name

-- The prefixes that the commands tell a job's variable by.
abbrev pub run_prefixes : List String
run_prefixes = "CI_" ∷ "GITLAB_" ∷ "FF_" ∷ "DOCKER_ENV_" ∷ []

abbrev pub ci_prefixes : List String
ci_prefixes = "CI_" ∷ "GITLAB_" ∷ "DOCKER_" ∷ []

any_of_four : (a b c d : Bool) → (a || b || c || d) ≡ (a || (b || (c || (d || false))))
any_of_four true b c d = refl
any_of_four false true c d = refl
any_of_four false false true d = refl
any_of_four false false false true = refl
any_of_four false false false false = refl

exclude_job_vars-has_any : (k : String) → exclude_job_vars k ≡ has_any run_prefixes k
unfolding exclude_job_vars
exclude_job_vars-has_any k =
    any_of_four (has_prefix k "CI_") (has_prefix k "GITLAB_") (has_prefix k "FF_")
      (has_prefix k "DOCKER_ENV_")

-- The environment `e` holds a supported log level, and of each other name the last value that the
-- variables `m` give it, if the name is accepted, and else none.
pub record Accepts {W : Type 0} (s : State W) (e : ℕ) (accept : String → Bool) (m : Map String)
    : Type 0 where
  pub level : String
  pub supported : is_level level ≡ true
  pub vars : Map String
  pub reads : values s.heap e ≡ some vars
  pub at_key :
      (key : String)
      → lookup key vars ≡ (
          if str_eq log_level_env_name key
          then some level
          else if accept key
          then last_value key m
          else none)

pub or_else-none : (o : Option String) → or_else o none ≡ o
or_else-none none = refl
or_else-none (some a) = refl

-- What is read of the variables does not depend on the name that is asked for.
vars_from-at :
    (reject_if : List (String → Bool)) (m vars : Map String) (key : String)
    → has_names m ≡ true
    → vars_from reject_if [] (env_list m) ≡ ok vars
    → lookup key (copy [] vars) ≡ (if accept_env_name key reject_if then last_value key m else none)
unfolding lookup
vars_from-at reject_if m vars key named read =
    let (vars', read', at) = vars_from-last_value reject_if m key named in
    let same : vars' ≡ vars = cc in
    lookup-copy key [] vars ∙ or_else-none (lookup key vars) ∙ ap (lookup key) (sym same) ∙ at

excluded : (k : String) → accept_env_name k (exclude_job_vars ∷ []) ≡ not (has_any run_prefixes k)
unfolding accept_env_name
excluded k = rw (← exclude_job_vars-has_any k) (ground arith)

module _ {W : Type 0} (host : Host W) (machine : Machine W) (calls : Calls W) where
  pub os_global_env-Accepts :
      (reject_if : List (String → Bool)) (accept : String → Bool) (job m : Map String)
      (s s' : State W) (e : ℕ)
      → ((k : String) → accept_env_name k reject_if ≡ accept k)
      → has_names m ≡ true
      → os_global_env host machine calls reject_if job (env_list m) s ≡ some (ok e, s')
      → Accepts s' e accept m
  unfolding os_global_env new_environment_from_os
  os_global_env-Accepts reject_if accept job m s s' e same_names named h =
      let (vars, read, at) = vars_from-last_value reject_if m "" named in
      let made = new_environment vars s.heap in
      elim (Option-cases (global_environment made.0 job made.1)) [
        | inl never ↦ absurd (ground arith)
        | inr ((r, heap), q) ↦
            let fine : r ≡ ok e = ground arith in
            let same : heap ≡ s'.heap = ground arith in
            let got : global_environment made.0 job made.1 ≡ some (ok e, s'.heap) = cc in
            let i =
              global_environment-HasLevel made.0 job (copy [] vars) made.1 s'.heap e
                (values-new vars s.heap) got in
            record {
              level = i.level;
              supported = i.supported;
              vars = i.vars;
              reads = i.reads;
              at_key = λ key.
                  let found =
                    vars_from-at reject_if m vars key named read
                    ∙ ap (λ a. if a then last_value key m else none) (same_names key) in
                  i.at_key key
                  ∙ ap (λ o. if str_eq log_level_env_name key then some i.level else o) found;
            }
      ]

  -- The environment that the command run makes of the variables of its process, if no name has an
  -- equality sign: it has a supported log level, no other variable whose name the job's variables
  -- are told by (CI_, GITLAB_, FF_, DOCKER_ENV_), and of each other name the process's last value.
  pub create_global_ctx-Accepts :
      (m : Map String) (options : Options) (s s' : State W) (g : GlobalContext)
      → has_names m ≡ true
      → create_global_ctx host machine calls (env_list m) options s ≡ some (ok g, s')
      → Accepts s' g.env (λ k. not (has_any run_prefixes k)) m × (g.job ≡ options.job)
  unfolding create_global_ctx
  create_global_ctx-Accepts m options s s' g named h =
      elim (Option-cases
        (os_global_env host machine calls (exclude_job_vars ∷ []) options.job (env_list m) s)) [
          | inl never ↦ absurd (ground arith)
          | inr ((err e, s1), failed) ↦ absurd (ground arith)
          | inr ((ok e, s1), made) ↦ elim (Result-cases (machine.getwd s1.world)) [
            | inr (e', q) ↦ absurd (ground arith)
            | inl (dir, q) ↦
                let env : g.env ≡ e = ground arith in
                let same : s' ≡ s1 = ground arith in
                let job : g.job ≡ options.job = ground arith in
                rw (env, same)
                  (
                    os_global_env-Accepts (exclude_job_vars ∷ [])
                        (λ k. not (has_any run_prefixes k)) options.job m s s1 e excluded named
                        made,
                    job,
                  )
          ]
        ]
