-- ===== src/Runner/StepFile.antt =====
-- step_file.go: what a step wrote to its output and export files.
pub mod Outputs
use step_runner.Common.{
  ℕ, suc, String, Bool, true, false, not, ◌&&◌, Option, none, some, List, [], ◌∷◌, Map, lookup, put,
  Error, errorf, wrap_error, Result, ok, err, ◌>>=◌, wrapping, contains, str_eq, if◌then◌else◌,
}
use step_runner.Value.{Value, bool, number, string, struct, list, null, unset}
use step_runner.Proto.{InputSpec, ValueType}
use step_runner.Runner.Host.{FileLine, Host}

abbrev pub line_err_msg : String
line_err_msg = "failed to unmarshal JSON at line"

abbrev line_error : String → Result (String × Value)
line_error format = err (errorf format (line_err_msg ∷ []))

abbrev has_name : Option String → Bool
has_name none = false
has_name (some n) = true

-- the checks on the value of a line
check_value : String → String → Option Value → Result (String × Value)
check_value line name (some v) = ok (name, v)
check_value line name none =
    if not (contains line "\"value\"")
    then line_error "%s %d: \"value\" field is missing"
    else line_error "%s %d: \"value\" field value is null"

-- the checks on a line that was decoded
check_line : String → FileLine → Option String → Result (String × Value)
unfolding check_value
check_line line l none =
    if not (contains line "\"name\"")
    then line_error "%s %d: \"name\" field is missing"
    else line_error "%s %d: \"name\" field value is null"
check_line line l (some name) =
    if str_eq name ""
    then line_error "%s %d: \"name\" field value is empty"
    else check_value line name l.value

module _ {W : Type 0} (host : Host W) where
  unfoldable pub read_line : String → Result (String × Value)
  unfolding check_line
  read_line line = elim (host.decode_line line) [
    | err e ↦ err (wrap_error "%s %d: %w" (line_err_msg ∷ []) e)
    | ok l ↦ check_line line l l.name
  ]

  -- the loop of ReadKeyValueLines; an empty line is skipped
  unfoldable pub read_key_values : List String → Map Value → Result (Map Value)
  read_key_values [] out = ok out
  read_key_values (line ∷ lines) out =
      let rest = read_key_values lines out in
      let next = read_line line >>= λ b. read_key_values lines (put b.0 b.1 out) in
      if str_eq line "" then rest else next

  unfoldable pub read_key_value_lines : String → W → Result (Map Value)
  read_key_value_lines path w =
      wrapping "opening file %v: %w" (path ∷ []) (host.read_lines path w) >>= λ lines.
      read_key_values lines []

  -- how ReadEnvironment turns a value into a text
  abbrev pub env_text : Value → Option String
  env_text (bool b) = some (if b then "true" else "false")
  env_text (number n) = some (host.format_float n)
  env_text (string s) = some s
  env_text _ = none

  -- the loop of ReadEnvironment
  unfoldable pub environment_of : Map Value → Result (Map String)
  environment_of [] = ok []
  environment_of ((key, v) ∷ m) = elim (env_text v) [
    | none ↦ err (errorf "read env file: key %q: cannot convert value type %q to string" (key ∷ []))
    | some text ↦ environment_of m >>= λ rest. ok ((key, text) ∷ rest)
  ]

  unfoldable pub read_environment : String → W → Result (Map String)
  read_environment path w =
      wrapping "read env file: %w" [] (read_key_value_lines path w) >>= environment_of

-- ValueType.String
abbrev pub want_type : ValueType → String
want_type ValueType.value_type_unspecified = "value_type_unspecified"
want_type ValueType.string = "string"
want_type ValueType.number = "number"
want_type ValueType.boolean = "boolean"
want_type ValueType.struct = "struct"
want_type ValueType.array = "array"

-- structpbValueToTypeName
abbrev pub type_name : Value → String
type_name (bool b) = "boolean"
type_name (list vs) = "array"
type_name (number n) = "number"
type_name (string s) = "string"
type_name (struct fs) = "struct"
type_name null = "null"
type_name unset = "unknown"

unfoldable pub check_output_type : ValueType → Value → Result (Unit {0})
check_output_type want have =
    if str_eq (want_type want) (type_name have)
    then ok tt
    else err (
        errorf
          "mismatched types, declared as %q in step specification and received from step as type %q"
          (want_type want ∷ type_name have ∷ []))

-- the first loop of ReadValues: every value is declared, and of its type
unfoldable pub check_declared : Map InputSpec → Map Value → Result (Unit {0})
check_declared specs [] = ok tt
check_declared specs ((key, v) ∷ m) = elim (lookup key specs) [
  | none ↦ err (
      errorf
        "read output file: key %q: unexpected output, remove from step outputs or define in step specification"
        (key ∷ []))
  | some spec ↦
      wrapping "read output file: key %q: %w" (key ∷ []) (check_output_type spec.type v) >>= λ _.
      check_declared specs m
]

-- what the second loop does with a declared output: keep it, or take the default
abbrev pub default_output : String → Option Value → Option Value → Map Value → Result (Map Value)
default_output name (some v) d m = ok m
default_output name none (some d) m = ok (put name d m)
default_output name none none m = err (
    errorf
      "read output file: key %q: missing output, add to step outputs or remove from step specification"
      (name ∷ []))

unfoldable pub add_defaults : Map InputSpec → Map Value → Result (Map Value)
add_defaults [] m = ok m
add_defaults ((name, o) ∷ specs) m =
    default_output name (lookup name m) o.default m >>= add_defaults specs

-- ReadValues, behind the reading of the file
unfoldable pub typed_values : Map InputSpec → Map Value → Result (Map Value)
typed_values specs m = check_declared specs m >>= λ _. add_defaults specs m

unfoldable pub read_values : {W : Type 0} → Host W → Map InputSpec → String → W → Result (Map Value)
unfolding read_key_value_lines
read_values host specs path w =
    wrapping "read output file: %w" [] (read_key_value_lines host path w) >>= typed_values specs
