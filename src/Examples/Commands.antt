-- ===== src/Examples/Commands.antt =====
-- Runs of the commands, and a specification that compiles: the theorems at concrete inputs.
use step_runner.Common.{
  ℕ, String, ◌≡◌, ◌⊎◌, refl, Bool, true, false, not, Option, none, some, List, [], ◌∷◌, Map, append,
  errorf, Error, Result, ok, err, str_eq,
}
use step_runner.Value.{Value}
use step_runner.Proto.{Spec, OutputMethod}
use step_runner.Schema.Model.{
  plain, InputType, OutputType, Input, Output, Signature, declared, no_run,
}
use step_runner.Schema.Spec.{compile_spec}
use step_runner.Schema.Typed.{AllTyped, names, declared_names, compile_spec-AllTyped}
use step_runner.Environment.Names.{has_names}
use step_runner.Environment.FromOs.{contains_text, known_vars}
use step_runner.Runner.Host.{State}
use step_runner.Runner.Model.{Parsed}
use step_runner.Runner.Context.{GlobalContext, StepsContext, env_list}
use step_runner.Runner.Run.Builder.{Outcome}
use step_runner.Commands.Flags.{Options}
use step_runner.Commands.Run.{Calls, prepare_run, report_of, run_command, create_global_ctx}
use step_runner.Commands.Reported.{IsReported, is_fine, says_success, run_command-IsReported}
use step_runner.Commands.Ci.{new_ci_options, ci_global_ctx, is_job_variable}
use step_runner.Commands.Isolated.{
  has_any, run_prefixes, ci_prefixes, Accepts, create_global_ctx-Accepts,
}
use step_runner.Commands.Separated.{IsJob, ci_global_ctx-Accepts}
use step_runner.Examples.Data.{value_of_some, value_of_ok, compiler, quiet_host, exec_definition}
use step_runner.Examples.Requests.{machine}

abbrev count : Input
count = record {
  default = some (plain (Value.number 3));
  sensitive = none;
  type = some InputType.number;
}

abbrev user_name : Output
user_name = record {
  default = some (plain (Value.string "Ada"));
  sensitive = some true;
  type = some OutputType.string;
}

abbrev signature : Signature
signature = record { inputs = ("count", count) ∷ []; outputs = declared (("name", user_name) ∷ []) }

abbrev no_spec : Spec
no_spec = record { inputs = []; outputs = []; output_method = OutputMethod.outputs }

abbrev compiled_spec : Spec
compiled_spec = value_of_ok no_spec (compile_spec compiler (some signature))

compile_spec-AllTyped_example :
    AllTyped compiled_spec.inputs
    × AllTyped compiled_spec.outputs
    × (names compiled_spec.inputs ≡ names signature.inputs)
    × (names compiled_spec.outputs ≡ declared_names compiler signature.outputs)
unfolding compile_spec step_runner.Schema.Spec.compile_inputs
    step_runner.Schema.Inputs.compile_input step_runner.Schema.Model.compile_value
    step_runner.Schema.Spec.compile_declared_outputs step_runner.Schema.Outputs.compile_output
compile_spec-AllTyped_example = compile_spec-AllTyped compiler signature compiled_spec refl

abbrev calls : Calls (Unit {0})
calls = record {
  read_file = λ path w. ok "type: exec";
  unmarshal_definition = λ text. ok exec_definition;
  decode_steps = λ yml. ok no_run;
  marshal_json = λ r. ok "{}";
  marshal_text = λ r. ok "";
  print_error = λ e w. w;
}

abbrev options : Options
options = record {
  step = "";
  oci_registry = "";
  oci_repository = "";
  oci_tag = "";
  oci_dir = "";
  oci_filename = "";
  git_url = "";
  git_rev = "";
  git_dir = "";
  inputs = [];
  env = [];
  job = [];
  text_proto_step_file = "steps/hello.txtpb";
  write_step_results = true;
  step_results_file = "";
  step_results_format = "json";
}

-- Two variables of the job's and one of the process's own.
abbrev variables : Map String
variables = ("CI_JOB_ID", "7") ∷ ("LEVEL", "low") ∷ ("PATH", "/bin") ∷ []

abbrev start : State (Unit {0})
start = record { heap = []; world = tt }

abbrev ran_command : Result (Unit {0}) × State (Unit {0})
ran_command =
    value_of_some (err (errorf "" []), start)
      (run_command quiet_host machine calls (env_list variables) options 1 start)

run_command-IsReported_example :
    ((e : Error) × (prepare_run quiet_host machine calls (env_list variables) options start
        ≡ some (err e, ran_command.1))
      × (ran_command.0 ≡ err e))
    ⊎ ((p : Parsed) × (c : StepsContext) × (s1 : State (Unit {0})) × (o : Outcome) × (prepare_run
            quiet_host machine calls
            (env_list variables)
            options
            start
          ≡ some (ok (p, c), s1))
        × IsReported quiet_host machine calls (report_of options) 1 p c s1 o ran_command.1
        × (is_fine ran_command.0 ≡ says_success o.result))
unfolding run_command step_runner.Runner.GlobalEnv.log_level step_runner.Common.to_lower
    step_runner.Common.trim_space step_runner.Common.lookup step_runner.Environment.value_of
    step_runner.Environment.values step_runner.Environment.values_in
    step_runner.Environment.values_of step_runner.Environment.parent_values
    step_runner.Environment.mutation_values step_runner.Runner.GlobalEnv.accept_level
    step_runner.Common.copy step_runner.Common.put step_runner.Runner.GlobalEnv.with_level
    step_runner.Runner.Parser.validate_inputs step_runner.Runner.Parser.parse_step_type
    step_runner.Runner.Run.Executable.run_executable step_runner.Runner.Run.Executable.run_expanded
    step_runner.Runner.Context.expand_and_apply_env step_runner.Environment.add_lexical_scope
    step_runner.Runner.Context.expand_texts step_runner.Runner.Run.Executable.run_command_in
    step_runner.Runner.Run.Executable.exec_step_command
    step_runner.Runner.Run.Executable.expand_args step_runner.Expression.Interpolate.expand_string
    step_runner.Expression.Interpolate.interpolate_string step_runner.Expression.Interpolate.scan
    step_runner.Expression.Interpolate.find_all step_runner.Expression.Interpolate.close_scan
    step_runner.Expression.Interpolate.join_output step_runner.Expression.Dig.value_to_string
    step_runner.Expression.Dig.evaluate step_runner.Expression.Dig.dig_object
    step_runner.Runner.Run.Executable.determine_work_dir
    step_runner.Runner.Run.Executable.after_command
    step_runner.Runner.Run.Executable.finish_executable
    step_runner.Runner.Run.Executable.read_outputs step_runner.Runner.StepFile.read_values
    step_runner.Runner.StepFile.read_key_values step_runner.Runner.StepFile.typed_values
    step_runner.Runner.StepFile.check_declared step_runner.Runner.StepFile.add_defaults
    step_runner.Runner.StepFile.read_environment step_runner.Runner.StepFile.environment_of
    step_runner.Environment.mutate
run_command-IsReported_example =
    run_command-IsReported quiet_host machine calls (env_list variables) options 1 start
      ran_command.1 ran_command.0 refl

abbrev no_global : GlobalContext
no_global = record { work_dir = ""; job = []; env = 0 }

abbrev isolated : Result GlobalContext × State (Unit {0})
isolated =
    value_of_some (err (errorf "" []), start)
      (create_global_ctx quiet_host machine calls (env_list variables) options start)

create_global_ctx-Accepts_example :
    Accepts isolated.1
      (value_of_ok no_global isolated.0).env
      (λ k. not (has_any run_prefixes k))
      variables
    × ((value_of_ok no_global isolated.0).job ≡ options.job)
unfolding has_names create_global_ctx step_runner.Runner.GlobalEnv.log_level
    step_runner.Common.to_lower step_runner.Common.trim_space step_runner.Common.lookup
    step_runner.Environment.value_of step_runner.Environment.values
    step_runner.Environment.values_in step_runner.Environment.values_of
    step_runner.Environment.parent_values step_runner.Environment.mutation_values
    step_runner.Runner.GlobalEnv.accept_level step_runner.Common.copy step_runner.Common.put
    step_runner.Runner.GlobalEnv.with_level
create_global_ctx-Accepts_example =
    create_global_ctx-Accepts quiet_host machine calls variables options start isolated.1
      (value_of_ok no_global isolated.0) refl refl

abbrev getenv : String → Option String
getenv name = some "/builds"

abbrev of_ci : Result GlobalContext × State (Unit {0})
of_ci =
    value_of_some (err (errorf "" []), start)
      (ci_global_ctx quiet_host machine calls (env_list variables)
        (new_ci_options getenv (ok "/") (env_list variables) true) start)

ci_global_ctx-Accepts_example :
    IsJob (value_of_ok no_global of_ci.0).job variables
    × Accepts of_ci.1 (value_of_ok no_global of_ci.0).env (contains_text known_vars) variables
    × ((k : String) → contains_text known_vars k ≡ true → has_any ci_prefixes k ≡ false)
unfolding has_names ci_global_ctx step_runner.Runner.GlobalEnv.log_level step_runner.Common.to_lower
    step_runner.Common.trim_space step_runner.Common.lookup new_ci_options step_runner.Common.put
    step_runner.Environment.value_of step_runner.Environment.values
    step_runner.Environment.values_in step_runner.Environment.values_of
    step_runner.Environment.parent_values step_runner.Environment.mutation_values
    step_runner.Runner.GlobalEnv.accept_level step_runner.Common.copy
    step_runner.Runner.GlobalEnv.with_level step_runner.Commands.Ci.find_job_variables
    step_runner.Commands.Ci.find_work_dir is_job_variable step_runner.Commands.Ci.job_variables_from
    step_runner.Commands.Run.os_global_env step_runner.Common.has_prefix
    step_runner.Environment.FromOs.accept_env_name contains_text step_runner.Environment.FromOs.cut
    step_runner.Environment.FromOs.new_environment_from_os step_runner.Environment.FromOs.vars_from
    step_runner.Environment.Names.is_name step_runner.Environment.add_lexical_scope
    step_runner.Environment.new_environment step_runner.Runner.GlobalEnv.global_environment
ci_global_ctx-Accepts_example =
    ci_global_ctx-Accepts quiet_host machine calls variables getenv (ok "/") true start of_ci.1
      (value_of_ok no_global of_ci.0) refl refl
