-- ===== src/Runner/Run/Sequence.antt =====
-- sequence_of_steps.go: running steps one after another.
use step_runner.Common.{
  String, Bool, false, Option, none, some, List, [], ◌∷◌, Map, errorf, wrap_error, Result, ok, err,
  ◌>>=◌, str_eq, if◌then◌else◌,
}
use step_runner.Value.{Value}
use step_runner.Proto.{StepResult, result_fields, ResultStep}
use step_runner.Expression.Dig.{Object, Codec}
use step_runner.Expression.Interpolate.{expand}
use step_runner.Runner.Host.{M, and_then, attempt, pure, Host}
use step_runner.Runner.Model.{
  SpecDef, LazyStep, Loaded, env_of, is_delegate_outputs, delegate_to, definition_outputs,
}
use step_runner.Runner.Context.{
  StepsContext, env_values, seen_by, expand_and_apply_env, record_result, step_results,
}
use step_runner.Runner.Run.Builder.{
  StepResultBuilder, new_builder, with_sub_step_result, Outcome, failed, succeeded,
}

abbrev has_step_name : String → Option ResultStep → Bool
has_step_name name none = false
has_step_name name (some step) = str_eq step.name name

unfoldable pub find_outputs_with_name : String → List StepResult → Result (Map Value)
find_outputs_with_name name [] =
    err (errorf "delegate: could not find step with name %q" (name ∷ []))
find_outputs_with_name name (r ∷ rs) =
    let rest = find_outputs_with_name name rs in
    if has_step_name name (result_fields r).step then ok (result_fields r).outputs else rest

-- the loop of interpolateStepOutputs
unfoldable pub interpolate_step_outputs : Codec → Object → Map Value → Result (Map Value)
interpolate_step_outputs codec obj [] = ok []
interpolate_step_outputs codec obj ((k, v) ∷ m) = elim (expand codec obj v) [
  | err e ↦ err (wrap_error "expand %q: %w" (k ∷ []) e)
  | ok res ↦ interpolate_step_outputs codec obj m >>= λ rest. ok ((k, res.value) ∷ rest)
]

-- readOutputs
unfoldable pub sequence_outputs : Codec → Object → SpecDef → StepsContext → Result (Map Value)
sequence_outputs codec obj sd c =
    if is_delegate_outputs sd
    then find_outputs_with_name (delegate_to sd) (step_results c)
    else interpolate_step_outputs codec obj (definition_outputs sd)

module _ {W : Type 0} (host : Host W)
    (run_step : LazyStep → StepsContext → M W (Outcome × StepsContext)) (l : Loaded) where
  -- What follows when all steps have run.
  unfoldable pub finish_sequence : StepResultBuilder → StepsContext → M W (Outcome × StepsContext)
  finish_sequence b c = and_then (seen_by c) λ obj.
      elim (sequence_outputs host.codec obj l.spec_def c) [
        | err e ↦ pure (failed l (record b { outputs = [] }) (wrap_error "outputs: %w" [] e), c)
        | ok outputs ↦ pure (succeeded l (record b { outputs = outputs }), c)
      ]

  -- the loop over the steps: it ends at the first error
  unfoldable pub run_steps :
      List LazyStep → StepResultBuilder → StepsContext → M W (Outcome × StepsContext)
  run_steps [] b c = finish_sequence b c
  run_steps (step ∷ steps) b c = and_then (run_step step c) λ ran.
      let observed = with_sub_step_result ran.0.result b in
      let recorded = record_result ran.0.result ran.1 in
      elim ran.0.error [
        | some e ↦ pure (failed l observed e, recorded)
        | none ↦ run_steps steps observed recorded
      ]

  -- SequenceOfSteps.Run: behind the expansion of the environment, and as a whole
  unfoldable pub run_steps_in : List LazyStep → StepsContext → M W (Outcome × StepsContext)
  run_steps_in steps c =
      and_then (env_values c.env) λ env. run_steps steps (record new_builder { env = env }) c

  unfoldable pub run_sequence : List LazyStep → StepsContext → M W (Outcome × StepsContext)
  run_sequence steps c =
      attempt (expand_and_apply_env host c (env_of l.spec_def))
        (λ e. pure (failed l new_builder (wrap_error "expand step env: %w" [] e), c))
        (run_steps_in steps)
