-- ===== src/Examples/Runs.antt =====
-- Examples of runs.
use step_runner.Common.{
  ℕ, String, ◌≡◌, refl, Bool, true, Option, none, some, List, [], ◌∷◌, Error, errorf,
}
use step_runner.Proto.{StepResult, success}
use step_runner.Runner.Host.{State, M}
use step_runner.Runner.Model.{LazyStep, dist, file_system, executable}
use step_runner.Runner.Context.{StepsContext, record_result}
use step_runner.Runner.Run.Builder.{
  build_result, new_builder, with_sub_step_result, Outcome, failed, no_result,
}
use step_runner.Runner.Run.Sequence.{run_steps}
use step_runner.Runner.Run.Trace.{
  Runs-run_steps, next, stopped, end_of, and_observed, IsRun, run_steps-IsRun,
}
use step_runner.Runner.Run.Reports.{IsReport, run-IsReport}
use step_runner.Environment.{new_environment}
use step_runner.Runner.Run.{run}
use step_runner.Examples.Data.{value_of_some, quiet_host, one_env, loaded, steps_context}
use step_runner.Examples.StepFiles.{compiled_step}

abbrev pub ran_well : StepResult
ran_well = build_result loaded success new_builder

-- A distributed step succeeds, and another one fails.
abbrev run_one : LazyStep → StepsContext → M (Unit {0}) (Outcome × StepsContext)
run_one step c s = elim step.resource [
  | dist dir file ↦ some ((record { result = some ran_well; error = none }, c), s)
  | _ ↦ some ((no_result (errorf "exit status 1" []), c), s)
]

abbrev both : List LazyStep
both =
    record { reference = compiled_step; resource = dist "fine" "step.yml" }
    ∷ record { reference = compiled_step; resource = file_system "/work" "broken" "step.yml" }
    ∷ []

run_steps-IsRun_example : IsRun quiet_host run_one loaded both new_builder steps_context one_env (
  (
    failed loaded (with_sub_step_result (some ran_well) new_builder) (errorf "exit status 1" []),
    record_result (some ran_well) steps_context,
  ),
  one_env,
)
unfolding run_steps record_result
run_steps-IsRun_example =
    run_steps-IsRun quiet_host run_one loaded both new_builder steps_context one_env _ refl

Runs-run_steps_example :
    run_steps quiet_host run_one loaded both new_builder steps_context one_env
    ≡ end_of quiet_host run_one loaded
        (and_observed quiet_host run_one loaded new_builder (ran_well ∷ []))
        (some (errorf "exit status 1" []))
        (record_result (some ran_well) steps_context)
        one_env
unfolding record_result
Runs-run_steps_example =
    Runs-run_steps quiet_host run_one loaded both new_builder steps_context
      (record_result (some ran_well) steps_context) one_env one_env (ran_well ∷ [])
      (some (errorf "exit status 1" [])) (next refl refl (stopped refl refl))

abbrev pub ran : (Outcome × StepsContext) × State (Unit {0})
ran =
    value_of_some ((no_result (errorf "" []), steps_context), one_env)
      (run quiet_host 1 (executable loaded) steps_context one_env)

run-IsReport_example : IsReport ran.0
unfolding run step_runner.Runner.Run.Executable.run_executable
    step_runner.Runner.Run.Executable.run_expanded step_runner.Runner.Run.Executable.run_command_in
    step_runner.Runner.Run.Executable.exec_step_command
    step_runner.Runner.Run.Executable.expand_args step_runner.Runner.Run.Executable.after_command
    step_runner.Runner.Run.Executable.determine_work_dir
    step_runner.Runner.Run.Executable.finish_executable
    step_runner.Runner.Run.Executable.read_outputs step_runner.Runner.Context.expand_and_apply_env
    step_runner.Runner.Context.expand_texts step_runner.Environment.values
    step_runner.Environment.values_in step_runner.Environment.values_of
    step_runner.Environment.parent_values step_runner.Environment.mutation_values
    step_runner.Environment.add_lexical_scope step_runner.Environment.append_mutation
    step_runner.Environment.mutate step_runner.Environment.new_environment
    step_runner.Expression.Interpolate.expand_string step_runner.Expression.Interpolate.expand
    step_runner.Expression.Interpolate.interpolate_string step_runner.Expression.Interpolate.scan
    step_runner.Expression.Interpolate.find_all step_runner.Expression.Interpolate.close_scan
    step_runner.Expression.Interpolate.join_output step_runner.Expression.Interpolate.concat
    step_runner.Expression.Dig.value_to_string step_runner.Common.copy step_runner.Common.lookup
    step_runner.Common.put step_runner.Common.split step_runner.Common.trim_space
    step_runner.Common.join step_runner.Runner.StepFile.read_values
    step_runner.Runner.StepFile.read_environment step_runner.Runner.StepFile.read_key_value_lines
    step_runner.Runner.StepFile.read_key_values step_runner.Runner.StepFile.typed_values
    step_runner.Runner.StepFile.check_declared step_runner.Runner.StepFile.add_defaults
    step_runner.Runner.StepFile.environment_of build_result step_runner.Runner.Model.to_proto_step
    step_runner.Expression.Dig.evaluate step_runner.Expression.Dig.dig_object
run-IsReport_example =
    run-IsReport quiet_host 1 (executable loaded) steps_context one_env ran.1 ran.0 refl
