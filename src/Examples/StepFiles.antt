-- ===== src/Examples/StepFiles.antt =====
-- Examples of step files that compile, and of what is read from output files.
use step_runner.Common.{
  String, ◌≡◌, refl, Bool, true, false, Option, none, some, is_some, List, [], ◌∷◌, Map, Result, ok,
  err, is_ok, str_eq, if◌then◌else◌, All,
}
use step_runner.Value.{Value, string}
use step_runner.Proto
use step_runner.Proto.{InputSpec, step_reference}
use step_runner.Schema.Model.{StepFields, Exec, no_run, run, Steps, done, more, step, Run}
use step_runner.Schema.Steps.{compile_definition, compile_step, compile_to_step_proto}
use step_runner.Schema.Steps.Forms.{HasForm, compile_definition-HasForm}
use step_runner.Runner.Model.{executable, new_inputs_with_default}
use step_runner.Runner.Resource.{parse_resource}
use step_runner.Runner.Parser.{parse}
use step_runner.Runner.Parser.Ready.{compile_step-parse_resource, parse-IsGiven}
use step_runner.Runner.StepFile.{typed_values, check_declared, check_output_type, add_defaults}
use step_runner.Runner.StepFile.Outputs.{IsFilled, typed_values-IsFilled}
use step_runner.Examples.Data.{
  compiler, value_of_ok, exec_step, exec_definition, no_params, unnamed, greeting, answer, loaded,
}

abbrev pub empty_step : StepFields
empty_step = record {
  action = none;
  delegate = none;
  env = [];
  exec = none;
  inputs = [];
  name = some "hello";
  outputs = [];
  script = none;
  step = none;
}

abbrev pub script_step : StepFields
script_step = record empty_step { script = some "echo hello" }

abbrev two_scripts : Run
two_scripts = run (more (step script_step no_run) (more (step script_step no_run) done))

abbrev compiled_definition : Proto.Definition
compiled_definition =
    value_of_ok exec_definition (compile_definition compiler (step empty_step two_scripts))

compile_definition-HasForm_example : HasForm empty_step two_scripts compiled_definition
unfolding compile_definition step_runner.Schema.Steps.verify_one_type_provided
    step_runner.Schema.Steps.compile_run compile_step
    step_runner.Schema.Steps.compile_script_keyword_to_step
    step_runner.Schema.Steps.compile_action_keyword_to_step compile_to_step_proto
    step_runner.Schema.Model.compile_values step_runner.Schema.Model.compile_value
compile_definition-HasForm_example =
    compile_definition-HasForm compiler empty_step two_scripts compiled_definition refl

abbrev pub no_step : Proto.Step
no_step =
    Proto.step (record { name = ""; env = []; inputs = [] })
      (Proto.reference
        (record {
          protocol = Proto.ReferenceProtocol.protocol_unspecified;
          url = "";
          path = [];
          filename = "";
          version = "";
          step_path = Proto.StepPath.no_step_path;
        })
        Proto.no_spec_definition)

abbrev pub compiled_step : Proto.Step
compiled_step = value_of_ok no_step (compile_step compiler script_step)

compile_step-parse_resource_example :
    is_ok (parse_resource "/work" (step_reference compiled_step)) ≡ true
unfolding compile_step step_runner.Schema.Steps.compile_script_keyword_to_step
    step_runner.Schema.Steps.compile_action_keyword_to_step compile_to_step_proto
    step_runner.Schema.Model.compile_values step_runner.Schema.Model.compile_value
compile_step-parse_resource_example =
    compile_step-parse_resource compiler script_step compiled_step "/work" tt refl

parse-IsGiven_example :
    All (λ b. is_some b.1 ≡ true) (new_inputs_with_default no_params (("greeting", greeting) ∷ []))
unfolding parse step_runner.Runner.Parser.validate_inputs step_runner.Common.lookup
    step_runner.Runner.Parser.parse_step_type
parse-IsGiven_example = parse-IsGiven exec_step no_params unnamed (executable loaded) refl

abbrev specs : Map InputSpec
specs = ("answer", answer) ∷ ("greeting", greeting) ∷ []

abbrev written : Map Value
written = ("answer", string "42") ∷ []

typed_values-IsFilled_example :
    IsFilled specs written (("answer", string "42") ∷ ("greeting", string "hello") ∷ [])
unfolding typed_values check_declared step_runner.Common.lookup check_output_type add_defaults
    step_runner.Common.put
typed_values-IsFilled_example =
    typed_values-IsFilled specs written
      (("answer", string "42") ∷ ("greeting", string "hello") ∷ []) refl
