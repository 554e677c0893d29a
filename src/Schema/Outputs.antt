-- ===== src/Schema/Outputs.antt =====
-- schema/v1/outputs.go: declared outputs. An error shows the type through a pointer, so that its text
-- is no part of the model.
use step_runner.Common.{
  String, Option, none, some, [], ◌∷◌, errorf, Result, ok, err, ◌>>=◌, if◌then◌else◌, str_eq,
}
use step_runner.Value.{Value}
use step_runner.Proto.{InputSpec, ValueType}
use step_runner.Schema.Model.{OutputType, Output, Compiler}
use step_runner.Schema.Inputs.{has_kind, is_true, compile_default}

-- the switch of `compileToProto`
abbrev pub output_value_type : OutputType → Option ValueType
output_value_type OutputType.boolean = some ValueType.boolean
output_value_type OutputType.array = some ValueType.array
output_value_type OutputType.number = some ValueType.number
output_value_type OutputType.string = some ValueType.string
output_value_type OutputType.struct = some ValueType.struct
output_value_type (OutputType.unknown t) = none

module _ (c : Compiler) where
  -- compileToProto, with the check for a type in front
  unfoldable pub compile_output_to_proto : Output → Option OutputType → Result InputSpec
  unfolding compile_default
  compile_output_to_proto o none = err (errorf "missing output type" [])
  compile_output_to_proto o (some t) = elim (output_value_type t) [
    | none ↦ err (errorf "unsupported output type: %v" [])
    | some type ↦ do
      default ← compile_default c o.default
      ok (record { type = type; default = default; sensitive = is_true o.sensitive })
  ]

-- verifyDefaultValueMatchesType: the type found for the default stays "" where the kinds differ
unfoldable pub verify_output_default : Option OutputType → Option Value → Result (Unit {0})
verify_output_default t none = ok tt
verify_output_default none (some v) = ok tt
verify_output_default (some t) (some v) = elim (output_value_type t) [
  | none ↦ err (errorf "unsupported type: %v" [])
  | some type ↦
      if has_kind type v
      then ok tt
      else err (errorf "output type %v and default value type %v must match" ("" ∷ []))
]

module _ (c : Compiler) where
  unfoldable pub compile_output : Output → Result InputSpec
  unfolding compile_output_to_proto verify_output_default
  compile_output o = do
    proto ← compile_output_to_proto c o o.type
    verify_output_default o.type proto.default >>= λ _. ok proto

-- The type that a text names, which the conversion OutputType(v) keeps as it is.
unfoldable pub output_type_of : String → OutputType
output_type_of v =
    if str_eq v "string"
    then OutputType.string
    else if str_eq v "number"
    then OutputType.number
    else if str_eq v "boolean"
    then OutputType.boolean
    else if str_eq v "struct"
    then OutputType.struct
    else if str_eq v "array"
    then OutputType.array
    else OutputType.unknown v

-- OutputType.UnmarshalJSON, of what json.Unmarshal made of the bytes
unfoldable pub unmarshal_output_type : Result String → Result OutputType
unfolding output_type_of
unmarshal_output_type decoded = decoded >>= λ v. elim (output_type_of v) [
  | OutputType.unknown t ↦ err (errorf "invalid value (expected one of %#v): %#v" (t ∷ []))
  | known ↦ ok known
]
