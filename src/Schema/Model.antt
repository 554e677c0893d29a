-- ===== src/Schema/Model.antt =====
-- schema/v1: the decoded types. A pointer that may be nil is an `Option`.
use step_runner.Common.{String, Bool, Option, List, [], ◌∷◌, Map, Error, Result, ok, err, ◌>>=◌}
use step_runner.Value.{Value}
use step_runner.Proto

-- The dynamic values (`any`) that decoding and the compiler put into inputs, outputs and defaults.
mutual
  pub data Any : Type 0 where
    -- what decoding makes: a value that structpb has a counterpart of
    plain : Value → Any
    -- a value of another Go type, named
    other : String → Any
    -- *string
    text_ptr : String → Any
    nil_text_ptr : Any
    -- StepInputs, which is map[string]any
    step_inputs : AnyFields → Any
    -- map[string]any as `simplifyTypes` builds it
    simple_map : AnyFields → Any

  pub data AnyFields : Type 0 where
    no_fields : AnyFields
    any_field : String → Any → AnyFields → AnyFields

abbrev pub any_fields : AnyFields → Map Any
any_fields no_fields = []
any_fields (any_field k v fs) = (k, v) ∷ any_fields fs

abbrev pub to_any_fields : Map Any → AnyFields
to_any_fields [] = no_fields
to_any_fields ((k, v) ∷ m) = any_field k v (to_any_fields m)

-- simplifyTypes
unfoldable mutual
  pub simplify : Any → Any
  simplify (text_ptr s) = plain (Value.string s)
  simplify (step_inputs fs) = simple_map (simplify_fields fs)
  simplify v = v

  pub simplify_fields : AnyFields → AnyFields
  simplify_fields no_fields = no_fields
  simplify_fields (any_field k v fs) = any_field k (simplify v) (simplify_fields fs)

-- GitReference
pub record GitReference : Type 0 where
  pub dir : Option String
  pub rev : String
  pub url : String
  pub file : Option String

-- OCIReference
pub record OciReference : Type 0 where
  pub registry : String
  pub repository : String
  pub tag : String
  pub dir : Option String
  pub file : Option String

-- Reference
pub record Reference : Type 0 where
  pub git : Option GitReference
  pub oci : Option OciReference

-- InputType and OutputType: the constants, or another text
pub data InputType : Type 0 where
  array boolean number string struct : InputType
  unknown : String → InputType

pub data OutputType : Type 0 where
  array boolean number string struct : OutputType
  unknown : String → OutputType

pub record Input : Type 0 where
  pub default : Option Any
  pub sensitive : Option Bool
  pub type : Option InputType

pub record Output : Type 0 where
  pub default : Option Any
  pub sensitive : Option Bool
  pub type : Option OutputType

-- Signature.Outputs, an `any`
pub data SignatureOutputs : Type 0 where
  no_outputs : SignatureOutputs
  delegate_text : String → SignatureOutputs
  declared : Map Output → SignatureOutputs
  unsupported : String → SignatureOutputs

pub record Signature : Type 0 where
  pub inputs : Map Input
  pub outputs : SignatureOutputs

-- Step.Step, an `any`
pub data StepTarget : Type 0 where
  short : String → StepTarget
  long : Reference → StepTarget
  compiled : Proto.Reference → StepTarget
  unsupported_target : String → StepTarget

pub record Exec : Type 0 where
  pub command : List String
  pub work_dir : Option String

-- The fields of Step but `run`.
pub record StepFields : Type 0 where
  pub action : Option String
  pub delegate : Option String
  pub env : Map String
  pub exec : Option Exec
  pub inputs : Map Any
  pub name : Option String
  pub outputs : Map Any
  pub script : Option String
  pub step : Option StepTarget

mutual
  pub data Step : Type 0 where
    step : StepFields → Run → Step

  -- Step.Run: nil, or a list
  pub data Run : Type 0 where
    no_run : Run
    run : Steps → Run

  pub data Steps : Type 0 where
    done : Steps
    more : Step → Steps → Steps

abbrev pub steps_of : Steps → List Step
steps_of done = []
steps_of (more s ss) = s ∷ steps_of ss

abbrev pub step_fields : Step → StepFields
step_fields (step f r) = f

-- What the compiler calls outside the repository: structpb.NewValue on the values above.
pub record Compiler : Type 0 where
  pub new_value : Any → Result Value

module _ (c : Compiler) where
  -- valueCompiler.compile
  unfoldable pub compile_value : Any → Result Value
  unfolding simplify
  compile_value v = c.new_value (simplify v)

  -- a loop that compiles the values of a map, with what it wraps an error in
  unfoldable pub compile_values : (String → Error → Error) → Map Any → Result (Map Value)
  compile_values wrapped [] = ok []
  compile_values wrapped ((k, v) ∷ m) = elim (compile_value v) [
    | err e ↦ err (wrapped k e)
    | ok new ↦ compile_values wrapped m >>= λ rest. ok ((k, new) ∷ rest)
  ]
