-- ===== src/Expression/Dig.antt =====
-- pkg/internal/expression/value_type.go and expression.go: a path of keys into the objects that an
-- expression can reach.
use step_runner.Common.{
  String, false, Option, none, some, List, [], ◌∷◌, Map, lookup, errorf, wrap_error, panic, Result,
  ok, err, ◌>>=◌, split, trim_space, str_eq, if◌then◌else◌,
}
use step_runner.Value.{
  Value, unset, null, bool, number, string, struct, list, fields, Evaluated, new_value,
}

pub record StepResultView : Type 0 where
  pub outputs : Map Value

pub record InterpolationContext : Type 0 where
  pub env : Map String
  pub export_file : String
  pub inputs : Map (Option Value)  -- a value may be a nil pointer
  pub job : Map String
  pub output_file : String
  pub step_dir : String
  pub step_results : Map StepResultView
  pub work_dir : String

-- What a path can reach, by the Go type that reflection finds. `nil_context` is the context that
-- git and dist resources pass on: a nil pointer.
pub data Object : Type 0 where
  nil_context : Object
  context : InterpolationContext → Object
  view : StepResultView → Object
  texts : Map String → Object
  views : Map StepResultView → Object
  values_map : Map Value → Object
  inputs_map : Map (Option Value) → Object
  nil_value : Object
  text : String → Object
  value : Value → Object

abbrev or_nil : Option Value → Object
or_nil none = nil_value
or_nil (some v) = value v

-- The exported fields in the order of the struct, under the names of their json tags.
abbrev context_fields : InterpolationContext → Map Object
context_fields c =
    ("env", texts c.env)
    ∷ ("export_file", text c.export_file)
    ∷ ("inputs", inputs_map c.inputs)
    ∷ ("job", texts c.job)
    ∷ ("output_file", text c.output_file)
    ∷ ("step_dir", text c.step_dir)
    ∷ ("steps", views c.step_results)
    ∷ ("work_dir", text c.work_dir)
    ∷ []

abbrev view_fields : StepResultView → Map Object
view_fields v = ("outputs", values_map v.outputs) ∷ []

not_found : String → Result Object
not_found key = err (errorf "the %q was not found" (key ∷ []))

-- the loop of `digStruct`: no field here is embedded, hidden or without a tag
unfoldable pub dig_struct : Map Object → String → Result Object
unfolding not_found
dig_struct [] key = not_found key
dig_struct ((name, o) ∷ fs) key = if str_eq name key then ok o else dig_struct fs key

unfoldable pub dig_map {ℓ} : {V : Type ℓ} → (V → Object) → Map V → String → Result Object
unfolding not_found
dig_map object m key = elim (lookup key m) [ none ↦ not_found key | some v ↦ ok (object v) ]

abbrev kind : Value → String
kind (bool b) = "*structpb.Value_BoolValue"
kind (number n) = "*structpb.Value_NumberValue"
kind (string s) = "*structpb.Value_StringValue"
kind (list vs) = "*structpb.Value_ListValue"
kind (struct fs) = "*structpb.Value_StructValue"
kind null = "*structpb.Value_NullValue"
kind unset = "<nil>"

unfoldable pub dig_proto_value : Value → String → Result Object
unfolding not_found
dig_proto_value (struct fs) key = elim (lookup key (fields fs)) [
  | none ↦ not_found key
  | some v ↦ ok (value v)
]
dig_proto_value v key = err (errorf "the %q is not map to get %q key" (kind v ∷ key ∷ []))

unfoldable pub dig_object : Object → String → Result Object
unfolding dig_struct dig_map dig_proto_value
dig_object nil_context key = err (panic "reflect: Type of a nil context")
dig_object (context c) key = dig_struct (context_fields c) key
dig_object (view v) key = dig_struct (view_fields v) key
dig_object (texts m) key = dig_map text m key
dig_object (views m) key = dig_map view m key
dig_object (values_map m) key = dig_map value m key
dig_object (inputs_map m) key = dig_map or_nil m key
dig_object nil_value key = err (panic "invalid memory address or nil pointer dereference")
dig_object (text s) key = err (errorf "%q is not supported" ("string" ∷ []))
dig_object (value v) key = dig_proto_value v key

-- What the program calls of google.golang.org/protobuf and of encoding/json on values.
pub record Codec : Type 0 where
  -- structpb.NewValue on what is no structpb.Value
  pub new_value : Object → Result Value
  -- json.Marshal
  pub marshal : Value → Result String

module _ (codec : Codec) where
  unfoldable pub object_to_proto_value : Object → Result Value
  object_to_proto_value (value v) = ok v
  object_to_proto_value nil_value = err (panic "value must have an inner value")
  object_to_proto_value o = codec.new_value o

  -- the loop of `evaluate`
  unfoldable pub dig_path : String → Object → List String → Result Object
  dig_path s o [] = ok o
  dig_path s o (key ∷ keys) = elim (dig_object o key) [
    | ok found ↦ dig_path s found keys
    | err e ↦ err (wrap_error "%s: %s" (s ∷ []) e)
  ]

  unfoldable pub evaluate_path : Object → String → Result Value
  unfolding dig_path object_to_proto_value
  evaluate_path o s = do found ← dig_path s o (split b'.' s); object_to_proto_value found

  -- Evaluate
  unfoldable pub evaluate : Object → String → Result Evaluated
  unfolding evaluate_path
  evaluate o s = do let t = trim_space s; v ← evaluate_path o t; ok (new_value v false (t ∷ []))

  unfoldable pub value_to_string : Value → Result String
  value_to_string (string s) = ok s
  value_to_string v = codec.marshal v
