-- ===== src/Schema/Spec.antt =====
-- schema/v1/spec.go: the inputs and the outputs of a step.
use step_runner.Common.{
  Option, none, some, [], ◌∷◌, Map, errorf, wrap_error, Result, ok, err, ◌>>=◌,
}
use step_runner.Proto.{InputSpec, Spec, OutputMethod}
use step_runner.Schema.Model.{
  Input, Output, Signature, SignatureOutputs, no_outputs, delegate_text, declared, unsupported,
  Compiler,
}
use step_runner.Schema.Inputs.{compile_input}
use step_runner.Schema.Outputs.{compile_output}

module _ (c : Compiler) where
  -- the loops of `Spec.Compile`
  unfoldable pub compile_inputs : Map Input → Result (Map InputSpec)
  compile_inputs [] = ok []
  compile_inputs ((k, i) ∷ m) = elim (compile_input c i) [
    | err e ↦ err (wrap_error "compiling input[%q]: %v: %w" (k ∷ []) e)
    | ok new ↦ compile_inputs m >>= λ rest. ok ((k, new) ∷ rest)
  ]

  unfoldable pub compile_declared_outputs : Map Output → Result (Map InputSpec)
  compile_declared_outputs [] = ok []
  compile_declared_outputs ((k, o) ∷ m) = elim (compile_output c o) [
    | err e ↦ err (wrap_error "compiling input[%q]: %v: %w" (k ∷ []) e)
    | ok new ↦ compile_declared_outputs m >>= λ rest. ok ((k, new) ∷ rest)
  ]

  unfoldable pub compile_outputs : SignatureOutputs → Result (OutputMethod × Map InputSpec)
  compile_outputs no_outputs = ok (OutputMethod.outputs, [])
  compile_outputs (delegate_text s) = ok (OutputMethod.delegate, [])
  compile_outputs (declared os) =
      compile_declared_outputs os >>= λ outputs. ok (OutputMethod.outputs, outputs)
  compile_outputs (unsupported t) = err (errorf "unsupported type: %T" (t ∷ []))

  unfoldable pub compile_signature : Signature → Result Spec
  unfolding compile_outputs
  compile_signature s = do
    inputs ← compile_inputs s.inputs
    (compile_outputs s.outputs) >>= λ o.
        ok (record { inputs = inputs; outputs = o.1; output_method = o.0 })

  -- Spec.Compile: no `spec` is an empty one
  unfoldable pub compile_spec : Option Signature → Result Spec
  unfolding compile_signature
  compile_spec none = compile_signature (record { inputs = []; outputs = no_outputs })
  compile_spec (some s) = compile_signature s
