-- ===== src/Proto.antt =====
-- The messages of proto/step.proto that the runner and the compiler of step files exchange.
-- A message that can hold itself is a data type over the record of its other fields.
use step_runner.Common.{ℕ, String, Bool, Option, List, [], ◌∷◌, Map}
use step_runner.Value.{Value}

pub data ReferenceProtocol : Type 0 where
  protocol_unspecified local git zip oci dist dynamic spec_def : ReferenceProtocol

pub data DefinitionType : Type 0 where
  type_unspecified exec steps : DefinitionType

pub data OutputMethod : Type 0 where
  method_unspecified outputs delegate : OutputMethod

pub data ValueType : Type 0 where
  value_type_unspecified string number boolean struct array : ValueType

-- the oneof step_path
pub data StepPath : Type 0 where
  no_step_path : StepPath
  path_exp : String → StepPath
  paths : List String → StepPath

pub record ReferenceFields : Type 0 where
  pub protocol : ReferenceProtocol
  pub url : String
  pub path : List String
  pub filename : String
  pub version : String
  pub step_path : StepPath

-- Spec.Content.Input and Spec.Content.Output
pub record InputSpec : Type 0 where
  pub type : ValueType
  pub default : Option Value
  pub sensitive : Bool

pub record Spec : Type 0 where
  pub inputs : Map InputSpec
  pub outputs : Map InputSpec
  pub output_method : OutputMethod

pub record Exec : Type 0 where
  pub command : List String
  pub work_dir : String

pub record DefinitionFields : Type 0 where
  pub type : DefinitionType
  pub exec : Option Exec
  pub outputs : Map Value
  pub env : Map String
  pub delegate : String

pub record StepFields : Type 0 where
  pub name : String
  pub env : Map String
  pub inputs : Map Value

mutual
  pub data Step : Type 0 where
    step : StepFields → Reference → Step

  pub data Reference : Type 0 where
    reference : ReferenceFields → SpecDefinition → Reference

  -- the message SpecDefinition, or nil
  pub data SpecDefinition : Type 0 where
    no_spec_definition : SpecDefinition
    spec_definition : Spec → Definition → SpecDefinition

  pub data Definition : Type 0 where
    definition : DefinitionFields → Steps → Definition

  pub data Steps : Type 0 where
    no_steps : Steps
    more : Step → Steps → Steps

abbrev pub step_fields : Step → StepFields
step_fields (step f r) = f

abbrev pub step_reference : Step → Reference
step_reference (step f r) = r

abbrev pub reference_fields : Reference → ReferenceFields
reference_fields (reference f d) = f

abbrev pub reference_definition : Reference → SpecDefinition
reference_definition (reference f d) = d

abbrev pub definition_fields : Definition → DefinitionFields
definition_fields (definition f ss) = f

abbrev pub steps_of : Steps → List Step
steps_of no_steps = []
steps_of (more s ss) = s ∷ steps_of ss

abbrev pub definition_steps : Definition → List Step
definition_steps (definition f ss) = steps_of ss

abbrev pub to_steps : List Step → Steps
to_steps [] = no_steps
to_steps (s ∷ ss) = more s (to_steps ss)

-- The Step of a result: what ran, with its reference, which may be nil.
pub record ResultStep : Type 0 where
  pub name : String
  pub reference : Option Reference
  pub inputs : Map Value
  pub env : Map String

-- StepResult.Status
pub data Status : Type 0 where
  unspecified running success failure cancelled : Status

pub record ExecResult : Type 0 where
  pub command : List String
  pub work_dir : String
  pub exit_code : ℕ  -- int32, as its bits

pub record ResultFields : Type 0 where
  pub step : Option ResultStep
  pub spec_definition : SpecDefinition
  pub status : Status
  pub outputs : Map Value
  pub exports : Map String
  pub env : Map String
  pub exec_result : Option ExecResult

mutual
  pub data StepResult : Type 0 where
    step_result : ResultFields → StepResults → StepResult

  pub data StepResults : Type 0 where
    no_results : StepResults
    and_result : StepResult → StepResults → StepResults

abbrev pub result_fields : StepResult → ResultFields
result_fields (step_result f rs) = f

abbrev pub results_of : StepResults → List StepResult
results_of no_results = []
results_of (and_result r rs) = r ∷ results_of rs

abbrev pub sub_step_results : StepResult → List StepResult
sub_step_results (step_result f rs) = results_of rs

abbrev pub to_results : List StepResult → StepResults
to_results [] = no_results
to_results (r ∷ rs) = and_result r (to_results rs)
