-- ===== src/Value.antt =====
-- Values: google.protobuf.Value of proto/step.proto, and pkg/context.
use step_runner.Common.{
  ℕ, String, Bool, false, List, [], ◌∷◌, Map, errorf, Result, ok, err, join, ◌&&◌, not,
  if◌then◌else◌,
}

-- structpb.Value. A number is held as the bits of its float64, and `unset` is a value with no kind.
mutual
  pub data Value : Type 0 where
    unset null : Value
    bool : Bool → Value
    number : ℕ → Value
    string : String → Value
    struct : Fields → Value
    list : Items → Value

  -- the Fields of a structpb.Struct
  pub data Fields : Type 0 where
    end : Fields
    field : String → Value → Fields → Fields

  -- the Values of a structpb.ListValue
  pub data Items : Type 0 where
    nil : Items
    cons : Value → Items → Items

abbrev pub fields : Fields → Map Value
fields end = []
fields (field k v fs) = (k, v) ∷ fields fs

-- context.Value: the result of an expression
pub record Evaluated : Type 0 where
  pub value : Value
  pub sensitive : Bool
  pub sensitive_reason : String

abbrev pub new_value : Value → Bool → List String → Evaluated
new_value v sensitive reasons = record {
  value = v;
  sensitive = sensitive;
  sensitive_reason = join "," reasons;
}

abbrev pub new_string_value : String → Bool → List String → Evaluated
new_string_value s sensitive reasons = new_value (string s) sensitive reasons

abbrev pub new_non_sensitive_value : Value → Evaluated
new_non_sensitive_value v = new_value v false []

-- context.Variable
pub record Variable : Type 0 where
  pub value : Value
  pub sensitive : Bool

abbrev pub new_variable : Value → Bool → Variable
new_variable v sensitive = record { value = v; sensitive = sensitive }

unfoldable pub assign : Variable → Evaluated → Result Variable
assign v e =
    if e.sensitive && not v.sensitive
    then err (
        errorf "non-sensitive input cannot derive value using sensitive value(s) %q"
          (e.sensitive_reason ∷ []))
    else ok (record v { value = e.value })
