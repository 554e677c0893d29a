-- ===== src/Runner/Parser/Ready.antt =====
-- step_parser.go and step_resource_parser.go: what a parsed step can rely on.
use native.Mathlib.Omega.{arith}
use step_runner.Common.{
  String, ◌≡◌, true, Option, is_some, [], ◌∷◌, Map, ok, is_ok, inl, inr, All, ◌∙◌, Result-cases,
}
use step_runner.Value.{Value}
use step_runner.Proto
use step_runner.Proto.{ReferenceProtocol, InputSpec, step_reference}
use step_runner.Schema.Model.{Compiler, StepFields}
use step_runner.Schema.Steps.{compile_step}
use step_runner.Schema.Steps.Accepted.{is_accepted, TargetIsAccepted, compile_step-IsAccepted}
use step_runner.Runner.Model.{SpecDef, Params, NamedReference, Parsed, new_inputs_with_default}
use step_runner.Runner.Resource.{parse_resource}
use step_runner.Runner.Parser.{validate_inputs, parse}

parse_resource-is_accepted :
    (dir : String) (r : Proto.Reference) → is_ok (parse_resource dir r) ≡ is_accepted r
unfolding parse_resource
parse_resource-is_accepted dir (Proto.reference r d) = ground arith

-- A step that the compiler accepts has a resource for the runner, if a target that was compiled
-- before has a known protocol, and a definition where the protocol needs one.
pub compile_step-parse_resource :
    (c : Compiler) (s : StepFields) (p : Proto.Step) (dir : String)
    → TargetIsAccepted s.step
    → compile_step c s ≡ ok p
    → is_ok (parse_resource dir (step_reference p)) ≡ true
compile_step-parse_resource c s p dir a h =
    parse_resource-is_accepted dir (step_reference p) ∙ compile_step-IsAccepted c s p a h

abbrev IsGiven : String × Option Value → Type 0
IsGiven b = is_some b.1 ≡ true

validate_inputs-IsGiven :
    (specs : Map InputSpec) (params : Params) (u : Unit {0})
    → validate_inputs specs params.inputs ≡ ok u
    → All IsGiven (new_inputs_with_default params specs)
unfolding validate_inputs new_inputs_with_default
validate_inputs-IsGiven [] params u h = tt
validate_inputs-IsGiven ((key, spec) ∷ specs) params u h =
    (ground arith, validate_inputs-IsGiven specs params u (ground arith))

-- When Parse returns a step, no input that the step runs with is nil.
pub parse-IsGiven :
    (sd : SpecDef) (params : Params) (from : NamedReference) (p : Parsed)
    → parse sd params from ≡ ok p
    → All IsGiven (new_inputs_with_default params sd.spec.inputs)
unfolding parse
parse-IsGiven sd params from p h =
    elim (Result-cases (validate_inputs sd.spec.inputs params.inputs)) [
      | inl (u, e) ↦ validate_inputs-IsGiven sd.spec.inputs params u e
      | inr (e, f) ↦ ground arith
    ]
