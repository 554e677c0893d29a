-- ===== src/Schema/Inputs.antt =====
-- schema/v1/inputs.go: declared inputs. An error shows the type through a pointer, so that its text is
-- no part of the model.
use step_runner.Common.{
  Bool, true, false, Option, none, some, [], ◌∷◌, errorf, wrap_error, Result, ok, err, ◌>>=◌,
  if◌then◌else◌,
}
use step_runner.Value.{Value}
use step_runner.Proto.{InputSpec, ValueType}
use step_runner.Schema.Model.{Any, InputType, Input, Compiler, compile_value}

-- the switch of `compileToProto`
abbrev pub value_type : InputType → Option ValueType
value_type InputType.boolean = some ValueType.boolean
value_type InputType.array = some ValueType.array
value_type InputType.number = some ValueType.number
value_type InputType.string = some ValueType.string
value_type InputType.struct = some ValueType.struct
value_type (InputType.unknown t) = none

-- The kind of a value that a type stands for.
abbrev pub has_kind : ValueType → Value → Bool
has_kind ValueType.boolean (Value.bool b) = true
has_kind ValueType.array (Value.list vs) = true
has_kind ValueType.number (Value.number n) = true
has_kind ValueType.string (Value.string s) = true
has_kind ValueType.struct (Value.struct fs) = true
has_kind _ _ = false

abbrev pub is_true : Option Bool → Bool
is_true none = false
is_true (some b) = b

module _ (c : Compiler) where
  unfoldable pub compile_default : Option Any → Result (Option Value)
  compile_default none = ok none
  compile_default (some v) = elim (compile_value c v) [
    | err e ↦ err (wrap_error "compiling default %v: %w" [] e)
    | ok new ↦ ok (some new)
  ]

  -- compileToProto, with the check for a type in front
  unfoldable pub compile_to_proto : Input → Option InputType → Result InputSpec
  unfolding compile_default
  compile_to_proto i none = err (errorf "missing input type" [])
  compile_to_proto i (some t) = elim (value_type t) [
    | none ↦ err (errorf "unsupported input type: %v" [])
    | some type ↦ do
      default ← compile_default i.default
      ok (record { type = type; default = default; sensitive = is_true i.sensitive })
  ]

-- verifyDefaultValueMatchesType: the type found for the default stays "" where the kinds differ
unfoldable pub verify_default : Option InputType → Option Value → Result (Unit {0})
verify_default t none = ok tt
verify_default none (some v) = ok tt
verify_default (some t) (some v) = elim (value_type t) [
  | none ↦ err (errorf "unsupported type: %v" [])
  | some type ↦
      if has_kind type v
      then ok tt
      else err (errorf "input type %v and default value type %v must match" ("" ∷ []))
]

module _ (c : Compiler) where
  unfoldable pub compile_input : Input → Result InputSpec
  unfolding compile_to_proto verify_default
  compile_input i = do
    proto ← compile_to_proto c i i.type
    verify_default i.type proto.default >>= λ _. ok proto
