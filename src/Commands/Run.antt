-- ===== src/Commands/Run.antt =====
-- cmd/run/run.go: the command that runs one step.
use step_runner.Common.{
  ℕ, String, true, false, Bool, ◌||◌, not, Option, none, some, List, [], ◌∷◌, Map, dir_of, Error,
  Result, ok, err, wrapping, ◌>>=◌, str_eq, if◌then◌else◌,
}
use step_runner.Proto
use step_runner.Schema.Model.{Step, step, StepFields, Run}
use step_runner.Schema.Steps.{compile_definition}
use step_runner.Environment.FromOs.{new_environment_from_os}
use step_runner.Runner.Host.{M, and_then, try, attempt, pure, give, lift, in_world, wrapped, Host}
use step_runner.Runner.Model.{
  SpecDef, Params, Parsed, new_inputs_with_default, step_defined_in_gitlab_job,
}
use step_runner.Runner.Context.{GlobalContext, StepsContext, new_steps_context, cleanup}
use step_runner.Runner.Parser.{parse}
use step_runner.Runner.GlobalEnv.{global_environment}
use step_runner.Runner.Run.Builder.{Outcome}
use step_runner.Runner.Run.{run}
use step_runner.Jobs.Opening.{Machine, current_dir}
use step_runner.Commands.Report.{StepResultReport, new_report, Marshal, write_report}
use step_runner.Commands.Container.{step_parser}
use step_runner.Commands.Flags.{Options, yaml_step, exclude_job_vars}

-- What the commands call outside the repository.
pub record Calls (W : Type 0) : Type 0 where
  -- os.ReadFile and prototext.Unmarshal
  pub read_file : String → W → Result String
  pub unmarshal_definition : String → Result Proto.Definition
  -- yaml.Unmarshal of the steps
  pub decode_steps : String → Result Run
  pub marshal_json : Marshal
  pub marshal_text : Marshal
  -- fmt.Println of an error
  pub print_error : Error → W → W

abbrev pub no_fields : StepFields
no_fields = record {
  action = none;
  delegate = none;
  env = [];
  exec = none;
  inputs = [];
  name = none;
  outputs = [];
  script = none;
  step = none;
}

-- &proto.Spec{Spec: &proto.Spec_Content{}}
abbrev pub empty_spec : Proto.Spec
empty_spec = record {
  inputs = [];
  outputs = [];
  output_method = Proto.OutputMethod.method_unspecified;
}

abbrev pub panics : Option Error → Bool
panics (some (Error.panic text)) = true
panics _ = false

-- the error that a command returns
abbrev pub error_result : Option Error → Result (Unit {0})
error_result none = ok tt
error_result (some e) = err e

-- the report that the options ask for
abbrev pub report_of : Options → Option StepResultReport
report_of o =
    if o.write_step_results || not (str_eq o.step_results_file "")
    then some (new_report o.step_results_file o.step_results_format)
    else none

module _ {W : Type 0} (host : Host W) (machine : Machine W) (calls : Calls W) where
  -- wrapStepsInSingleStep
  unfoldable pub wrap_steps_in_single_step : String → Result Step
  wrap_steps_in_single_step yml =
      wrapping "failed to unmarshal step: %w" [] (calls.decode_steps yml) >>= λ steps.
      ok (step no_fields steps)

  -- the two ways to a definition in run
  unfoldable pub load_definition : Options → M W (Result SpecDef)
  unfolding dir_of yaml_step wrap_steps_in_single_step compile_definition
  load_definition o s =
      if str_eq o.text_proto_step_file ""
      then lift
          (do
            yml ← yaml_step o
            def ← wrap_steps_in_single_step yml
            proto_def ← compile_definition host.compiler def
            ok (record { spec = empty_spec; definition = proto_def; dir = "" }))
          s
      else lift
          (do
            text ← calls.read_file o.text_proto_step_file s.world
            defn ← calls.unmarshal_definition text
            ok (record {
              spec = empty_spec;
              definition = defn;
              dir = dir_of o.text_proto_step_file;
            }))
          s

  -- NewEnvironmentFromOS with GlobalEnvironment, over os.Environ()
  unfoldable pub os_global_env : List (String → Bool) → Map String → List String → M W (Result ℕ)
  unfolding new_environment_from_os global_environment
  os_global_env reject_if job environ s = elim (new_environment_from_os reject_if environ s.heap) [
    | err e ↦ some (err e, s)
    | ok (env, h) ↦ elim (global_environment env job h) [
      | none ↦ none
      | some (r, h') ↦ some (r, record s { heap = h' })
    ]
  ]

  -- createGlobalCtx
  unfoldable pub create_global_ctx : List String → Options → M W (Result GlobalContext)
  unfolding os_global_env exclude_job_vars
  create_global_ctx environ o = try (os_global_env (exclude_job_vars ∷ []) o.job environ) λ env.
      try (wrapped "failed to create work dir: %w" [] (current_dir machine))
        λ work_dir. give (record { work_dir = work_dir; job = o.job; env = env })

  -- run up to the call of Run
  unfoldable pub prepare_run : List String → Options → M W (Result (Parsed × StepsContext))
  unfolding load_definition create_global_ctx step_parser parse new_inputs_with_default
      new_steps_context
  prepare_run environ o = try (load_definition o) λ sd. try (create_global_ctx environ o) λ global.
      try (step_parser machine) λ parser.
        let params : Params = record { inputs = []; env = [] } in
        try (lift (parse sd params step_defined_in_gitlab_job)) λ parsed.
          try
            (new_steps_context host global sd.dir (new_inputs_with_default params sd.spec.inputs)
              global.env)
            λ context. give (parsed, context)

  -- the report, unless the call of Run panics; its error is printed
  unfoldable pub report_result : Option StepResultReport → Outcome → M W (Unit {0})
  unfolding write_report
  report_result none o s = pure tt s
  report_result (some r) o s =
      if panics o.error
      then pure tt s
      else attempt
          (write_report calls.marshal_json calls.marshal_text machine.write_file r o.result)
          (λ e. in_world λ w. (tt, calls.print_error e w)) pure s

  -- the call of Run, what follows it, and the deferred call of Cleanup
  unfoldable pub run_and_report : Option StepResultReport → ℕ → Parsed → StepsContext → M W Outcome
  unfolding run report_result
  run_and_report report fuel p c =
      and_then (run host fuel p c)
        λ ran. and_then (report_result report ran.0) λ u. and_then (cleanup host c) λ v. pure ran.0

  -- run. The fuel bounds how deep steps run steps.
  unfoldable pub run_command : List String → Options → ℕ → M W (Result (Unit {0}))
  unfolding prepare_run run_and_report
  run_command environ o fuel = try (prepare_run environ o) λ ready.
      and_then (run_and_report (report_of o) fuel ready.0 ready.1)
        λ outcome. lift (error_result outcome.error)
