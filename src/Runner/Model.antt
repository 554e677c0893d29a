-- ===== src/Runner/Model.antt =====
-- The runner's values: spec_definition.go, step_resource.go, runner.go, named_step_reference.go.
use step_runner.Common.{
  ℕ, String, Bool, true, false, Option, none, some, List, [], ◌∷◌, Map, lookup, map, ◌%◌, ◌^◌,
}
use step_runner.Value.{Value, Variable}
use step_runner.Proto
use step_runner.Proto.{
  DefinitionType, OutputMethod, InputSpec, Spec, Definition, definition_fields, definition_steps,
  Step, SpecDefinition, spec_definition, Reference, ResultStep, ExecResult,
}

pub record SpecDef : Type 0 where
  pub spec : Spec
  pub definition : Definition
  pub dir : String

abbrev pub to_proto : SpecDef → SpecDefinition
to_proto sd = spec_definition sd.spec sd.definition

abbrev pub is_type_exec : SpecDef → Bool
is_type_exec sd = elim (definition_fields sd.definition).type [
  | DefinitionType.exec ↦ true
  | _ ↦ false
]

abbrev pub is_type_steps : SpecDef → Bool
is_type_steps sd = elim (definition_fields sd.definition).type [
  | DefinitionType.steps ↦ true
  | _ ↦ false
]

abbrev pub exec_of : SpecDef → Option Proto.Exec
exec_of sd = (definition_fields sd.definition).exec

abbrev command_of : Option Proto.Exec → List String
command_of none = []
command_of (some e) = e.command

abbrev work_dir_of : Option Proto.Exec → String
work_dir_of none = ""
work_dir_of (some e) = e.work_dir

-- The generated getters of a nil Exec are not used: a definition of type exec has one.
abbrev pub exec_command : SpecDef → List String
exec_command sd = command_of (exec_of sd)

abbrev pub exec_work_dir : SpecDef → String
exec_work_dir sd = work_dir_of (exec_of sd)

abbrev pub env_of : SpecDef → Map String
env_of sd = (definition_fields sd.definition).env

abbrev pub is_delegate_outputs : SpecDef → Bool
is_delegate_outputs sd = elim sd.spec.output_method [ OutputMethod.delegate ↦ true | _ ↦ false ]

abbrev pub delegate_to : SpecDef → String
delegate_to sd = (definition_fields sd.definition).delegate

abbrev pub definition_outputs : SpecDef → Map Value
definition_outputs sd = (definition_fields sd.definition).outputs

-- Where a step is loaded from, one constructor for each kind of StepResource.
pub data Resource : Type 0 where
  file_system : (work_dir step_path filename : String) → Resource
  git : (url version step_dir filename : String) → Resource
  dist : (step_dir filename : String) → Resource
  dynamic : (short_ref : String) → Resource
  fixed : SpecDef → Resource

pub record Params : Type 0 where
  pub inputs : Map Variable
  pub env : Map String

abbrev input_or_default : Option Variable → InputSpec → Option Value
input_or_default none spec = spec.default
input_or_default (some v) spec = some v.value

-- NewInputsWithDefault: a value is nil where there is neither an input nor a default
unfoldable pub new_inputs_with_default : Params → Map InputSpec → Map (Option Value)
new_inputs_with_default p [] = []
new_inputs_with_default p ((key, spec) ∷ specs) =
    (key, input_or_default (lookup key p.inputs) spec) ∷ new_inputs_with_default p specs

-- NamedStepReference
pub record NamedReference : Type 0 where
  pub name : String
  pub ref : Option Reference

abbrev pub step_defined_in_gitlab_job : NamedReference
step_defined_in_gitlab_job = record { name = ""; ref = none }

abbrev pub format_inputs : Map Variable → Map Value
format_inputs m = map (λ b. (b.0, b.1.value)) m

unfoldable pub to_proto_step : NamedReference → Params → ResultStep
to_proto_step r p = record {
  name = r.name;
  reference = r.ref;
  inputs = format_inputs p.inputs;
  env = p.env;
}

-- ExecResult.ToProto: the exit code as an int32
abbrev pub new_exec_result : String → List String → ℕ → ExecResult
new_exec_result dir args code = record { command = args; work_dir = dir; exit_code = code % 2 ^ 32 }

-- LazilyLoadedStep, without the parser and the context that all steps share
pub record LazyStep : Type 0 where
  pub reference : Step
  pub resource : Resource

-- A parsed step: ExecutableStep or SequenceOfSteps
pub record Loaded : Type 0 where
  pub loaded_from : NamedReference
  pub params : Params
  pub spec_def : SpecDef

pub data Parsed : Type 0 where
  executable : Loaded → Parsed
  sequence : Loaded → List LazyStep → Parsed
