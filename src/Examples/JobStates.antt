-- ===== src/Examples/JobStates.antt =====
-- Examples of jobs, and of the environment that they start with.
use step_runner.Common.{
  ℕ, String, ◌≡◌, refl, Bool, true, Option, none, some, List, [], ◌∷◌, Map, Error, Result, ok, err,
  copy, put, lookup, text_at, to_lower, trim_space,
}
use step_runner.Proto.{StepResult}
use step_runner.Runner.Run.Builder.{Outcome, build_result}
use step_runner.Runner.Model.{executable}
use step_runner.Runner.Run.{run}
use step_runner.Environment.{Env, Heap, values, new_environment, add_lexical_scope}
use step_runner.Jobs.{Job, new_job, start, close, on_run_completion, complete_as, exit_run}
use step_runner.Jobs.States.{
  Reaches, made, started, finished, left, close_called, IsSound, Reaches-IsSound,
}
use step_runner.Jobs.Completion.{Takes, run-Takes}
use step_runner.Examples.Data.{
  value_of_ok, value_of_some, quiet_host, one_env, loaded, steps_context,
}
use step_runner.Examples.Runs.{ran, ran_well}

abbrev same_text : Error → String
same_text e = "exit status 1"

abbrev in_step_job : Job
in_step_job = close (start 5 (new_job "job"))

abbrev well : Outcome
well = record { result = some ran_well; error = none }

abbrev completed_job : Job
completed_job = value_of_ok (new_job "") (on_run_completion same_text 9 well in_step_job)

reached : Reaches same_text "job" (exit_run completed_job)
unfolding start close on_run_completion complete_as build_result
reached = left (finished {j' = completed_job} 9 well (close_called (started 5 made)) refl refl) refl

Reaches-IsSound_example : IsSound (exit_run completed_job)
Reaches-IsSound_example = Reaches-IsSound same_text reached

abbrev run_result : StepResult
run_result = value_of_some ran_well ran.0.0.result

run-Takes_example : Takes same_text 9 ran.0.0 in_step_job
unfolding run step_runner.Runner.Run.Executable.run_executable
    step_runner.Runner.Run.Executable.run_expanded step_runner.Runner.Run.Executable.run_command_in
    step_runner.Runner.Run.Executable.exec_step_command
    step_runner.Runner.Run.Executable.expand_args step_runner.Runner.Run.Executable.after_command
    step_runner.Runner.Run.Executable.determine_work_dir
    step_runner.Runner.Run.Executable.finish_executable
    step_runner.Runner.Run.Executable.read_outputs step_runner.Runner.Context.expand_and_apply_env
    step_runner.Runner.Context.expand_texts step_runner.Environment.values
    step_runner.Environment.values_in step_runner.Environment.values_of
    step_runner.Environment.parent_values step_runner.Environment.mutation_values
    step_runner.Environment.add_lexical_scope step_runner.Environment.append_mutation
    step_runner.Environment.mutate step_runner.Environment.new_environment
    step_runner.Expression.Interpolate.expand_string step_runner.Expression.Interpolate.expand
    step_runner.Expression.Interpolate.interpolate_string step_runner.Expression.Interpolate.scan
    step_runner.Expression.Interpolate.find_all step_runner.Expression.Interpolate.close_scan
    step_runner.Expression.Interpolate.join_output step_runner.Expression.Interpolate.concat
    step_runner.Expression.Dig.value_to_string step_runner.Common.copy step_runner.Common.lookup
    step_runner.Common.put step_runner.Common.split step_runner.Common.trim_space
    step_runner.Common.join step_runner.Runner.StepFile.read_values
    step_runner.Runner.StepFile.read_environment step_runner.Runner.StepFile.read_key_value_lines
    step_runner.Runner.StepFile.read_key_values step_runner.Runner.StepFile.typed_values
    step_runner.Runner.StepFile.check_declared step_runner.Runner.StepFile.add_defaults
    step_runner.Runner.StepFile.environment_of step_runner.Runner.Run.Builder.build_result
    step_runner.Runner.Model.to_proto_step step_runner.Expression.Dig.evaluate
    step_runner.Expression.Dig.dig_object
run-Takes_example =
    run-Takes same_text quiet_host 1 (executable loaded) steps_context one_env ran.1 ran.0
      run_result 9 in_step_job refl refl
