-- ===== src/Schema/Steps.antt =====
-- schema/v1/step.go: compiling a step and a definition.
pub mod Forms
pub mod Accepted
use step_runner.Common.{
  String, Bool, true, false, not, ◌&&◌, Option, none, some, List, [], ◌∷◌, Map, Error, errorf,
  wrap_error, Result, ok, err, ◌>>=◌, str_eq, text_or_empty, length, ◌==◌, if◌then◌else◌,
}
use step_runner.Value.{Value}
use step_runner.Proto
use step_runner.Proto.{ReferenceProtocol, DefinitionType, reference_fields}
use step_runner.Schema.Model
use step_runner.Schema.Model.{
  StepFields, Step, step, Run, no_run, run, Steps, done, more, Exec, StepTarget, short, long,
  compiled, unsupported_target, text_ptr, step_inputs, to_any_fields, Compiler, compile_values,
}
use step_runner.Schema.ShortReference.{short_form, compile_short}
use step_runner.Schema.References.{compile_reference}

-- `s.Script != nil && *s.Script != ""`
abbrev pub is_given : Option String → Bool
is_given none = false
is_given (some s) = not (str_eq s "")

abbrev pub is_set {ℓ} : {A : Type ℓ} → Option A → Bool
is_set none = false
is_set (some a) = true

abbrev pub script_reference : Proto.Reference
script_reference = short_form ReferenceProtocol.dist "" "" ("script" ∷ []) "step.yml"

unfoldable pub compile_script_keyword_to_step : StepFields → Result StepFields
compile_script_keyword_to_step s =
    if not (is_given s.script)
    then ok s
    else if is_set s.step
    then err (errorf "the `script` keyword cannot be used with the `step` keyword" [])
    else if is_given s.action
    then err (errorf "the `script` keyword cannot be used with the `action` keyword" [])
    else if not (length s.inputs == 0)
    then err (errorf "the `script` keyword cannot be used with `inputs`" [])
    else ok (record s {
      step = some (compiled script_reference);
      inputs = ("script", text_ptr (text_or_empty s.script)) ∷ [];
      script = none;
    })

abbrev pub action_runner : Model.Reference
action_runner = record {
  git = some (record {
    dir = none;
    rev = "main";
    url = "https://gitlab.com/components/action-runner";
    file = none;
  });
  oci = none;
}

unfoldable pub compile_action_keyword_to_step : StepFields → Result StepFields
compile_action_keyword_to_step s =
    if not (is_given s.action)
    then ok s
    else if is_set s.step
    then err (errorf "the `action` keyword cannot be used with the `step` keyword" [])
    else if is_given s.script
    then err (errorf "the `action` keyword cannot be used with the `script` keyword" [])
    else ok (record s {
      step = some (long action_runner);
      inputs =
          ("action", text_ptr (text_or_empty s.action))
          ∷ ("inputs", step_inputs (to_any_fields s.inputs))
          ∷ [];
      action = none;
    })

-- the switch on the type of `s.Step`
compile_target : Option StepTarget → String → Map Value → Map String → Result Proto.Reference
compile_target none name inputs env = err (errorf "unsupported type: %T" ("<nil>" ∷ []))
compile_target (some (compiled r)) name inputs env = ok r
compile_target (some (short s)) name inputs env = compile_short s
compile_target (some (long r)) name inputs env = compile_reference r name inputs env
compile_target (some (unsupported_target t)) name inputs env =
    err (errorf "unsupported type: %T" (t ∷ []))

abbrev is_spec_def : ReferenceProtocol → Bool
is_spec_def ReferenceProtocol.spec_def = true
is_spec_def _ = false

module _ (c : Compiler) where
  unfoldable pub compile_to_step_proto : StepFields → Result Proto.Step
  unfolding compile_target
  compile_to_step_proto s = compile_values c (λ k e. e) s.inputs >>= λ inputs.
      let name = text_or_empty s.name in
      elim (compile_target s.step name inputs s.env) [
        | err e ↦ err (wrap_error "compiling reference: %w" [] e)
        | ok ref ↦
            -- a spec_def reference inlines the inputs
            ok (
              Proto.step
                (record {
                  name = name;
                  env = s.env;
                  inputs = if is_spec_def (reference_fields ref).protocol then [] else inputs;
                })
                ref)
      ]

  -- CompileStep: a step of a `run` list; what it runs itself is not looked at
  unfoldable pub compile_step : StepFields → Result Proto.Step
  compile_step s = do
    scripted ← compile_script_keyword_to_step s
    acted ← compile_action_keyword_to_step scripted
    compile_to_step_proto acted

  -- the loop over `run`
  unfoldable pub compile_run : Option String → Steps → Result Proto.Steps
  compile_run name done = ok Proto.no_steps
  compile_run name (more (step s r) ss) = elim (compile_step s) [
    | err e ↦ err (wrap_error "compiling run[%v]: %v: %w" (text_or_empty name ∷ []) e)
    | ok new ↦ compile_run name ss >>= λ rest. ok (Proto.more new rest)
  ]

unfoldable pub verify_one_type_provided : Option Exec → Run → Result (Unit {0})
verify_one_type_provided none no_run =
    err (errorf "at least one of `script, `action`, `run` or `exec` must be provided" [])
verify_one_type_provided (some e) (run ss) =
    err
      (errorf "only one of `script`, `action`, `run` or `exec` may be provided. have %v" ("2" ∷ []))
verify_one_type_provided _ _ = ok tt

module _ (c : Compiler) where
  compile_to_definition_proto : StepFields → Option Exec → Run → Result Proto.Definition
  compile_to_definition_proto s (some e) r = ok (
      Proto.definition
        (record {
          type = DefinitionType.exec;
          exec = some (record { command = e.command; work_dir = text_or_empty e.work_dir });
          outputs = [];
          env = s.env;
          delegate = text_or_empty s.delegate;
        })
        Proto.no_steps)
  compile_to_definition_proto s none (run ss) = do
    steps ← compile_run c s.name ss
    outputs ← compile_values c (λ k. wrap_error "compiling output[%q]: %v: %w" (k ∷ [])) s.outputs
    ok (
        Proto.definition
          (record {
            type = DefinitionType.steps;
            exec = none;
            outputs = outputs;
            env = s.env;
            delegate = text_or_empty s.delegate;
          })
          steps)
  compile_to_definition_proto s none no_run = err (errorf "could not determine step type" [])

  -- Step.Compile
  unfoldable pub compile_definition : Step → Result Proto.Definition
  unfolding compile_to_definition_proto
  compile_definition (step s r) =
      verify_one_type_provided s.exec r >>= λ _. compile_to_definition_proto s s.exec r
