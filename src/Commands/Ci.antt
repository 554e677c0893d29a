-- ===== src/Commands/Ci.antt =====
-- cmd/ci/ci.go: the command that runs the steps of an environment variable.
use step_runner.Common.{
  ℕ, String, true, false, Bool, ◌||◌, Option, none, some, List, [], ◌∷◌, Map, put, has_prefix,
  Result, ok, err, not, wrapping, ◌>>=◌, str_eq, text_or_empty, if◌then◌else◌,
}
use step_runner.Schema.Model.{Step, step}
use step_runner.Schema.Steps.{compile_definition}
use step_runner.Environment.{add_lexical_scope}
use step_runner.Environment.FromOs.{cut, contains_text, known_vars}
use step_runner.Runner.Host.{M, and_then, try, give, lift, wrapped, Host}
use step_runner.Runner.Model.{
  SpecDef, Params, Parsed, new_inputs_with_default, step_defined_in_gitlab_job,
}
use step_runner.Runner.Context.{GlobalContext, StepsContext, new_steps_context}
use step_runner.Runner.Parser.{parse}
use step_runner.Jobs.Opening.{Machine}
use step_runner.Commands.Report.{StepResultReport, new_report, format_json}
use step_runner.Commands.Container.{step_parser}
use step_runner.Commands.Run.{
  Calls, empty_spec, no_fields, error_result, os_global_env, run_and_report,
}

pub record CiOptions : Type 0 where
  pub write_step_results_file : Bool
  pub steps : String
  pub work_dir : String
  pub job_variables : Map String

-- findWorkDir, of the variable CI_PROJECT_DIR; an error of Getwd is dropped, and it then gives ""
unfoldable pub find_work_dir : Option String → Result String → String
find_work_dir project_dir current =
    let given = text_or_empty project_dir in
    if str_eq given "" then (elim current [ ok dir ↦ dir | err e ↦ "" ]) else given

-- the prefixes of findJobVariables
unfoldable pub is_job_variable : String → Bool
unfolding has_prefix
is_job_variable k = has_prefix k "CI_" || has_prefix k "GITLAB_" || has_prefix k "DOCKER_"

abbrev pub keep_variable : Bool → String → String → Map String → Map String
keep_variable true k v variables = put k v variables
keep_variable false k v variables = variables

-- the loop of findJobVariables over os.Environ(), with what it has so far
unfoldable pub job_variables_from : Map String → List String → Map String
unfolding cut is_job_variable
job_variables_from variables [] = variables
job_variables_from variables (e ∷ environ) = elim (cut e) [
  | none ↦ job_variables_from variables environ
  | some (k, v) ↦ job_variables_from (keep_variable (is_job_variable k) k v variables) environ
]

-- findJobVariables
unfoldable pub find_job_variables : List String → Map String
unfolding job_variables_from
find_job_variables environ = job_variables_from [] environ

-- the report that the options ask for
abbrev pub ci_report : CiOptions → Option StepResultReport
ci_report o = if o.write_step_results_file then some (new_report "" format_json) else none

-- the options of NewCmd, over os.Getenv, os.Getwd and os.Environ(); the flag is RunningInDebugMode at first
unfoldable pub new_ci_options :
    (String → Option String) → Result String → List String → Bool → CiOptions
unfolding find_work_dir find_job_variables
new_ci_options getenv current environ write = record {
  write_step_results_file = write;
  steps = text_or_empty (getenv "STEPS");
  work_dir = find_work_dir (getenv "CI_PROJECT_DIR") current;
  job_variables = find_job_variables environ;
}

module _ {W : Type 0} (host : Host W) (machine : Machine W) (calls : Calls W) where
  -- wrapStepsInSpecDef
  unfoldable pub wrap_steps_in_spec_def : String → Result Step
  wrap_steps_in_spec_def steps =
      wrapping "unmarshalling steps: %w" [] (calls.decode_steps steps) >>= λ decoded.
      ok (step no_fields decoded)

  unfoldable pub compile_steps : CiOptions → Result SpecDef
  unfolding wrap_steps_in_spec_def compile_definition
  compile_steps o = do
    def ← wrapping "reading STEPS %q: %w" (o.steps ∷ []) (wrap_steps_in_spec_def o.steps)
    proto_def ← wrapping "compiling STEPS: %w" [] (compile_definition host.compiler def)
    ok (record { spec = empty_spec; definition = proto_def; dir = "" })

  -- the global context: NewEnvironmentFromOSWithKnownVars and GlobalEnvironment
  unfoldable pub ci_global_ctx : List String → CiOptions → M W (Result GlobalContext)
  unfolding os_global_env contains_text
  ci_global_ctx environ o =
      try
        (os_global_env host machine calls ((λ name. not (contains_text known_vars name)) ∷ [])
          o.job_variables environ)
        λ env. give (record { work_dir = o.work_dir; job = o.job_variables; env = env })

  -- EnvWithLexicalScope of the parameters' environment
  unfoldable pub scope_of : GlobalContext → Params → M W ℕ
  unfolding add_lexical_scope
  scope_of global params s =
      let (e, h) = add_lexical_scope global.env params.env s.heap in some (e, record s { heap = h })

  -- run up to the call of Run
  unfoldable pub prepare_ci : List String → CiOptions → M W (Result (Parsed × StepsContext))
  unfolding compile_steps ci_global_ctx step_parser parse scope_of new_inputs_with_default
      new_steps_context
  prepare_ci environ o = try (lift (compile_steps o)) λ sd. try (ci_global_ctx environ o) λ global.
      try (step_parser machine) λ parser.
        let params : Params = record { inputs = []; env = [] } in
        try
          (lift
            (wrapping "failed to run steps: %w" [] (parse sd params step_defined_in_gitlab_job)))
          λ parsed. and_then (scope_of global params) λ env.
            try
              (wrapped "creating steps context: %w" [] (
                new_steps_context host global sd.dir (new_inputs_with_default params sd.spec.inputs)
                  env))
              λ context. give (parsed, context)

  -- run
  unfoldable pub run_ci : List String → CiOptions → ℕ → M W (Result (Unit {0}))
  unfolding prepare_ci run_and_report
  run_ci environ o fuel = try (prepare_ci environ o) λ ready.
      and_then (run_and_report host machine calls (ci_report o) fuel ready.0 ready.1)
        λ outcome. lift (wrapping "failed to run steps: %w" [] (error_result outcome.error))
