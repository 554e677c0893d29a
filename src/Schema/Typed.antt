-- ===== src/Schema/Typed.antt =====
-- schema/v1/inputs.go, outputs.go and spec.go: what a specification that compiles declares.
use native.Mathlib.Omega.{arith}
use step_runner.Common.{
  String, ◌≡◌, refl, ap, true, Bool, Option, none, some, List, [], ◌∷◌, Map, map, All, ok,
  Result-cases, inl, inr, >>=-eq-ok,
}
use step_runner.Proto.{InputSpec, ValueType, Spec, OutputMethod}
use step_runner.Schema.Model.{
  Input, InputType, Output, OutputType, Signature, SignatureOutputs, no_outputs, delegate_text,
  declared, unsupported, Compiler,
}
use step_runner.Schema.Inputs.{
  has_kind, value_type, compile_to_proto, verify_default, compile_input,
}
use step_runner.Schema.Outputs.{
  output_value_type, compile_output_to_proto, verify_output_default, compile_output,
}
use step_runner.Schema.Spec.{
  compile_inputs, compile_declared_outputs, compile_outputs, compile_signature, compile_spec,
}

-- There is no default, or it is a value of the declared type.
abbrev is_typed : InputSpec → Bool
is_typed i = elim i.default [ none ↦ true | some v ↦ has_kind i.type v ]

abbrev pub AllTyped : Map InputSpec → Type 0
AllTyped = All (λ b. is_typed b.1 ≡ true)

abbrev pub names {ℓ} : {A : Type ℓ} → Map A → List String
names m = map (λ b. b.0) m

of_type : Option InputType → Option ValueType
of_type none = none
of_type (some t) = value_type t

of_output_type : Option OutputType → Option ValueType
of_output_type none = none
of_output_type (some t) = output_value_type t

verify_default-is_typed :
    (t : Option InputType) (s : InputSpec)
    → of_type t ≡ some s.type
    → verify_default t s.default ≡ ok tt
    → is_typed s ≡ true
unfolding of_type verify_default
verify_default-is_typed none s q h = cc
verify_default-is_typed (some t) s q h = ground arith

verify_output_default-is_typed :
    (t : Option OutputType) (s : InputSpec)
    → of_output_type t ≡ some s.type
    → verify_output_default t s.default ≡ ok tt
    → is_typed s ≡ true
unfolding of_output_type verify_output_default
verify_output_default-is_typed none s q h = cc
verify_output_default-is_typed (some t) s q h = ground arith

module _ (c : Compiler) where
  compile_to_proto-type :
      (i : Input) (t : Option InputType) (s : InputSpec)
      → compile_to_proto c i t ≡ ok s
      → of_type t ≡ some s.type
  unfolding of_type compile_to_proto
  compile_to_proto-type i none s h = cc
  compile_to_proto-type i (some t) s h = ground arith

  compile_output_to_proto-type :
      (o : Output) (t : Option OutputType) (s : InputSpec)
      → compile_output_to_proto c o t ≡ ok s
      → of_output_type t ≡ some s.type
  unfolding of_output_type compile_output_to_proto
  compile_output_to_proto-type o none s h = cc
  compile_output_to_proto-type o (some t) s h = ground arith

  compile_input-is_typed :
      (i : Input) (s : InputSpec) → compile_input c i ≡ ok s → is_typed s ≡ true
  unfolding compile_input
  compile_input-is_typed i s h =
      let (p, made, verified) = >>=-eq-ok (compile_to_proto c i i.type) _ h in
      let (u, fits, same) = >>=-eq-ok (verify_default i.type p.default) _ verified in
      let e : p ≡ s = cc in
      rw (← e) (verify_default-is_typed i.type p (compile_to_proto-type i i.type p made) fits)

  compile_output-is_typed :
      (o : Output) (s : InputSpec) → compile_output c o ≡ ok s → is_typed s ≡ true
  unfolding compile_output
  compile_output-is_typed o s h =
      let (p, made, verified) = >>=-eq-ok (compile_output_to_proto c o o.type) _ h in
      let (u, fits, same) = >>=-eq-ok (verify_output_default o.type p.default) _ verified in
      let e : p ≡ s = cc in
      rw (← e) (
        verify_output_default-is_typed o.type p (compile_output_to_proto-type o o.type p made) fits)

  compile_inputs-AllTyped :
      (m : Map Input) (specs : Map InputSpec)
      → compile_inputs c m ≡ ok specs
      → AllTyped specs × (names specs ≡ names m)
  unfolding compile_inputs
  compile_inputs-AllTyped [] specs h = let e : specs ≡ [] = cc in rw e (tt, refl)
  compile_inputs-AllTyped ((k, i) ∷ m) specs h = elim (Result-cases (compile_input c i)) [
    | inr (e, q) ↦ absurd (ground arith)
    | inl (s, q) ↦ elim (Result-cases (compile_inputs c m)) [
      | inr (e, q') ↦ absurd (ground arith)
      | inl (rest, q') ↦
          let (typed, named) = compile_inputs-AllTyped m rest q' in
          let e : specs ≡ (k, s) ∷ rest = ground arith in
          rw e ((compile_input-is_typed i s q, typed), ap (λ (t : List String). k ∷ t) named)
    ]
  ]

  compile_declared_outputs-AllTyped :
      (m : Map Output) (specs : Map InputSpec)
      → compile_declared_outputs c m ≡ ok specs
      → AllTyped specs × (names specs ≡ names m)
  unfolding compile_declared_outputs
  compile_declared_outputs-AllTyped [] specs h = let e : specs ≡ [] = cc in rw e (tt, refl)
  compile_declared_outputs-AllTyped ((k, o) ∷ m) specs h =
      elim (Result-cases (compile_output c o)) [
        | inr (e, q) ↦ absurd (ground arith)
        | inl (s, q) ↦ elim (Result-cases (compile_declared_outputs c m)) [
          | inr (e, q') ↦ absurd (ground arith)
          | inl (rest, q') ↦
              let (typed, named) = compile_declared_outputs-AllTyped m rest q' in
              let e : specs ≡ (k, s) ∷ rest = ground arith in
              rw e ((compile_output-is_typed o s q, typed), ap (λ (t : List String). k ∷ t) named)
        ]
      ]

  -- The names of the outputs that a signature declares.
  abbrev pub declared_names : SignatureOutputs → List String
  declared_names (declared os) = names os
  declared_names _ = []

  compile_outputs-AllTyped :
      (o : SignatureOutputs) (made : OutputMethod × Map InputSpec)
      → compile_outputs c o ≡ ok made
      → AllTyped made.1 × (names made.1 ≡ declared_names o)
  unfolding compile_outputs
  compile_outputs-AllTyped no_outputs made h =
      let e : made ≡ (OutputMethod.outputs, []) = cc in rw e (tt, refl)
  compile_outputs-AllTyped (delegate_text s) made h =
      let e : made ≡ (OutputMethod.delegate, []) = cc in rw e (tt, refl)
  compile_outputs-AllTyped (declared os) made h =
      let (outputs, q, e) = >>=-eq-ok (compile_declared_outputs c os) _ h in
      let same : (OutputMethod.outputs, outputs) ≡ made = cc in
      rw (← same) (compile_declared_outputs-AllTyped os outputs q)
  compile_outputs-AllTyped (unsupported t) made h = cc

  -- A specification that compiles declares its inputs and outputs under their names and in their
  -- order, and each default is a value of the declared type: true or false for a boolean, and
  -- likewise for arrays, numbers, strings and structs.
  pub compile_spec-AllTyped :
      (s : Signature) (spec : Spec)
      → compile_spec c (some s) ≡ ok spec
      → AllTyped spec.inputs
        × AllTyped spec.outputs
        × (names spec.inputs ≡ names s.inputs)
        × (names spec.outputs ≡ declared_names s.outputs)
  unfolding compile_spec compile_signature
  compile_spec-AllTyped s spec h =
      let (inputs, q, next) = >>=-eq-ok (compile_inputs c s.inputs) _ h in
      let (o, q', last) = >>=-eq-ok (compile_outputs c s.outputs) _ next in
      let same : record { inputs = inputs; outputs = o.1; output_method = o.0 } ≡ spec = cc in
      let i = compile_inputs-AllTyped s.inputs inputs q in
      let p = compile_outputs-AllTyped s.outputs o q' in rw (← same) (i.0, p.0, i.1, p.1)
