-- ===== src/Runner/Parser.antt =====
-- step_parser.go: a fetched definition becomes a step that can run.
pub mod Ready
use step_runner.Common.{
  String, Bool, true, false, Option, none, some, List, [], ◌∷◌, Map, lookup, Error, errorf,
  wrap_error, panic, Result, ok, err, ◌>>=◌, wrapping, if◌then◌else◌,
}
use step_runner.Value.{Variable}
use step_runner.Proto.{InputSpec, Step, step_reference, definition_steps}
use step_runner.Runner.Model.{
  SpecDef, Params, NamedReference, LazyStep, Loaded, Parsed, executable, sequence, is_type_exec,
  is_type_steps,
}
use step_runner.Runner.Resource.{parse_resource}

abbrev is_missing : Option Variable → InputSpec → Bool
is_missing none spec = elim spec.default [ none ↦ true | some v ↦ false ]
is_missing (some v) spec = false

unfoldable pub validate_inputs : Map InputSpec → Map Variable → Result (Unit {0})
validate_inputs [] inputs = ok tt
validate_inputs ((key, spec) ∷ specs) inputs =
    let rest = validate_inputs specs inputs in
    if is_missing (lookup key inputs) spec
    then err (errorf "input %q required, but not defined" (key ∷ []))
    else rest

-- the loop over the steps of a definition
unfoldable pub parse_steps : String → List Step → Result (List LazyStep)
parse_steps dir [] = ok []
parse_steps dir (s ∷ ss) = parse_resource dir (step_reference s) >>= λ resource.
    parse_steps dir ss >>= λ rest. ok (record { reference = s; resource = resource } ∷ rest)

unfoldable pub parse_step_type : SpecDef → Params → NamedReference → Result Parsed
parse_step_type sd params loaded_from =
    let loaded : Loaded = record { loaded_from = loaded_from; params = params; spec_def = sd } in
    if is_type_exec sd
    then ok (executable loaded)
    else if is_type_steps sd
    then (parse_steps sd.dir (definition_steps sd.definition) >>= λ steps.
        ok (sequence loaded steps))
    else err (errorf "unknown step definition type: %s" [])

-- Parser.Parse
unfoldable pub parse : SpecDef → Params → NamedReference → Result Parsed
parse sd params loaded_from =
    wrapping "failed to parse spec definition: %w" [] (validate_inputs sd.spec.inputs params.inputs)
    >>= λ _.
        wrapping "failed to parse spec definition: %w" [] (parse_step_type sd params loaded_from)
