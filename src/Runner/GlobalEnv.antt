-- ===== src/Runner/GlobalEnv.antt =====
-- global_env.go: the environment that every step of a job has, with the log level.
pub mod Level
use step_runner.Common.{
  ℕ, String, Bool, ◌||◌, Option, none, some, List, [], ◌∷◌, Map, text_at, errorf, wrap_error,
  Result, ok, err, to_lower, trim_space, str_eq, if◌then◌else◌,
}
use mathlib.Core.Option
use step_runner.Environment.{Heap, values, value_of, new_environment, add_lexical_scope}

-- LogLevelEnvName
abbrev pub log_level_env_name : String
log_level_env_name = "CI_STEPS_LOG_LEVEL"

abbrev pub normalised : String → String
normalised s = to_lower (trim_space s)

-- the switch of logLevel
unfoldable pub accept_level : String → Result (Map String)
accept_level level =
    if str_eq level "" || str_eq level "info"
    then ok ((log_level_env_name, "info") ∷ [])
    else if str_eq level "debug"
    then ok ((log_level_env_name, "debug") ∷ [])
    else if str_eq level "warn"
    then ok ((log_level_env_name, "warn") ∷ [])
    else if str_eq level "error"
    then ok ((log_level_env_name, "error") ∷ [])
    else err (errorf "log level: %s not supported" (level ∷ []))

-- logLevel: the variable of the job, else the one of the parent
unfoldable pub log_level : Heap → ℕ → Map String → Option (Result (Map String))
log_level h parent job_vars =
    let level = normalised (text_at log_level_env_name job_vars) in
    if str_eq level ""
    then Option.map (λ v. accept_level (normalised v)) (value_of h parent log_level_env_name)
    else some (accept_level level)

-- AddLexicalScope(NewEnvironment(globalEnv).Values())
unfoldable pub with_level : ℕ → Map String → Heap → Option (ℕ × Heap)
with_level parent level h =
    let (made, h') = new_environment level h in
    Option.map (λ vs. add_lexical_scope parent vs h') (values h' made)

-- GlobalEnvironment
unfoldable pub global_environment : ℕ → Map String → Heap → Option (Result ℕ × Heap)
global_environment parent job_vars h = elim (log_level h parent job_vars) [
  | none ↦ none
  | some (err e) ↦ some (err (wrap_error "init global environment: %w" [] e), h)
  | some (ok level) ↦ Option.map (λ made. (ok made.0, made.1)) (with_level parent level h)
]
