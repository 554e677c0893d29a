-- ===== src/Schema/Steps/Accepted.antt =====
-- The references that the compiler makes are of the protocols that the runner knows.
use native.Mathlib.Omega.{arith}
use step_runner.Common.{
  String, ◌≡◌, refl, Bool, true, false, Option, none, some, Map, ok, >>=-eq-ok, Result-cases, ◌⊎◌,
  inl, inr, text_or_empty,
}
use step_runner.Value.{Value}
use step_runner.Proto
use step_runner.Proto.{ReferenceProtocol, step_reference}
use step_runner.Schema.Model.{
  StepFields, StepTarget, short, long, compiled, unsupported_target, Reference, Compiler,
  compile_values,
}
use step_runner.Schema.ShortReference.{compile_short, compile_local, compile_dist, compile_remote}
use step_runner.Schema.References.{compile_reference, compile_git, compile_oci}
use step_runner.Schema.Steps.{
  compile_script_keyword_to_step, compile_action_keyword_to_step, compile_target,
  compile_to_step_proto, compile_step, script_reference, action_runner,
}

abbrev pub has_definition : Proto.SpecDefinition → Bool
has_definition Proto.no_spec_definition = false
has_definition (Proto.spec_definition spec def) = true

-- A protocol that `StepResourceParser.Parse` has a case for, with the definition that the case needs.
abbrev pub is_known : ReferenceProtocol → Proto.SpecDefinition → Bool
is_known ReferenceProtocol.local d = true
is_known ReferenceProtocol.git d = true
is_known ReferenceProtocol.dist d = true
is_known ReferenceProtocol.dynamic d = true
is_known ReferenceProtocol.spec_def d = has_definition d
is_known _ d = false

abbrev pub is_accepted : Proto.Reference → Bool
is_accepted (Proto.reference r d) = is_known r.protocol d

abbrev pub IsAccepted : Proto.Reference → Type 0
IsAccepted r = is_accepted r ≡ true

-- A target that was compiled before is of a protocol that the runner knows.
abbrev pub TargetIsAccepted : Option StepTarget → Type 0
TargetIsAccepted (some (compiled r)) = IsAccepted r
TargetIsAccepted _ = Unit

compile_short-IsAccepted :
    (s : String) (r : Proto.Reference) → compile_short s ≡ ok r → IsAccepted r
unfolding compile_short compile_local compile_dist compile_remote
compile_short-IsAccepted s r h = ground arith

compile_reference-IsAccepted :
    (q : Reference) (name : String) (inputs : Map Value) (env : Map String) (r : Proto.Reference)
    → compile_reference q name inputs env ≡ ok r
    → IsAccepted r
unfolding compile_reference compile_git compile_oci
compile_reference-IsAccepted q name inputs env r h = ground arith

compile_target-IsAccepted :
    (t : Option StepTarget) (name : String) (inputs : Map Value) (env : Map String)
    (r : Proto.Reference)
    → TargetIsAccepted t
    → compile_target t name inputs env ≡ ok r
    → IsAccepted r
unfolding compile_target
compile_target-IsAccepted none name inputs env r a h = cc
compile_target-IsAccepted (some (compiled q)) name inputs env r a h = ground arith
compile_target-IsAccepted (some (short s)) name inputs env r a h = compile_short-IsAccepted s r h
compile_target-IsAccepted (some (long q)) name inputs env r a h =
    compile_reference-IsAccepted q name inputs env r h
compile_target-IsAccepted (some (unsupported_target t)) name inputs env r a h = cc

script-step :
    (s t : StepFields)
    → compile_script_keyword_to_step s ≡ ok t
    → (t.step ≡ s.step) ⊎ (t.step ≡ some (compiled script_reference))
unfolding compile_script_keyword_to_step
script-step s t h = ground arith

action-step :
    (s t : StepFields)
    → compile_action_keyword_to_step s ≡ ok t
    → (t.step ≡ s.step) ⊎ (t.step ≡ some (long action_runner))
unfolding compile_action_keyword_to_step
action-step s t h = ground arith

compile_to_step_proto-IsAccepted :
    (c : Compiler) (s : StepFields) (p : Proto.Step)
    → TargetIsAccepted s.step
    → compile_to_step_proto c s ≡ ok p
    → IsAccepted (step_reference p)
unfolding compile_to_step_proto
compile_to_step_proto-IsAccepted c s p a h =
    let (inputs, q, h') = >>=-eq-ok (compile_values c (λ k e. e) s.inputs) _ h in
    let name = text_or_empty s.name in
    elim (Result-cases (compile_target s.step name inputs s.env)) [
      | inl (r, made) ↦
          let same : r ≡ step_reference p = ground arith in
          rw (← same) (compile_target-IsAccepted s.step name inputs s.env r a made)
      | inr (e, failed) ↦ ground arith
    ]

-- A step that compiles refers to its implementation by a protocol that the runner knows, with the
-- definition that the protocol needs, if a target that was compiled before does so.
pub compile_step-IsAccepted :
    (c : Compiler) (s : StepFields) (p : Proto.Step)
    → TargetIsAccepted s.step
    → compile_step c s ≡ ok p
    → IsAccepted (step_reference p)
unfolding compile_step
compile_step-IsAccepted c s p a h =
    let (scripted, e₁, h₁) = >>=-eq-ok (compile_script_keyword_to_step s) _ h in
    let (acted, e₂, h₂) = >>=-eq-ok (compile_action_keyword_to_step scripted) _ h₁ in
    let first : TargetIsAccepted scripted.step = elim (script-step s scripted e₁) [
      | inl same ↦ rw same a
      | inr made ↦ rw made refl
    ] in
    let second : TargetIsAccepted acted.step = elim (action-step scripted acted e₂) [
      | inl same ↦ rw same first
      | inr made ↦ rw made tt
    ] in
    compile_to_step_proto-IsAccepted c acted p second h₂
