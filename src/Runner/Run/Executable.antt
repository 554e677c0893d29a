-- ===== src/Runner/Run/Executable.antt =====
-- executable_step.go: running a command.
use step_runner.Common.{
  String, Option, none, some, List, [], ◌∷◌, Map, Error, wrap_error, panic, Result, ok, err, ◌>>=◌,
  wrapping, str_eq, if◌then◌else◌,
}
use step_runner.Value.{Value}
use step_runner.Proto.{ExecResult, result_fields}
use step_runner.Expression.Dig.{Object, Codec}
use step_runner.Expression.Interpolate.{expand_string}
use step_runner.Environment.{new_environment}
use step_runner.Runner.Host.{M, and_then, attempt, pure, in_world, Host}
use step_runner.Runner.Model.{
  Loaded, exec_command, exec_work_dir, env_of, is_delegate_outputs, new_exec_result,
}
use step_runner.Runner.StepFile.{read_values, read_environment}
use step_runner.Runner.Context.{
  StepsContext, env_values, mutate_env, seen_by, expand_and_apply_env, env_list,
}
use step_runner.Runner.Run.Builder.{
  StepResultBuilder, new_builder, with_exec_result, Outcome, failed, succeeded, no_result,
}

-- the loop over the arguments
unfoldable pub expand_args : Codec → Object → List String → Result (List String)
expand_args codec obj [] = ok []
expand_args codec obj (arg ∷ args) =
    wrapping "interpolate command argument %q: %w" (arg ∷ []) (expand_string codec obj arg)
    >>= λ res. expand_args codec obj args >>= λ rest. ok (res ∷ rest)

unfoldable pub determine_work_dir : Codec → Object → StepsContext → Loaded → Result String
determine_work_dir codec obj c l =
    let work_dir = exec_work_dir l.spec_def in
    if str_eq work_dir ""
    then ok c.global_ctx.work_dir
    else wrapping "interpolate workdir %q: %w" (work_dir ∷ []) (expand_string codec obj work_dir)

-- What `execCommand` returns: a result, if the command was started, and an error.
pub record Executed : Type 0 where
  pub result : Option ExecResult
  pub error : Option Error

abbrev not_executed : Error → Executed
not_executed e = record { result = none; error = some e }

module _ {W : Type 0} (host : Host W) where
  unfoldable pub start_command : StepsContext → String → List String → M W Executed
  start_command c dir [] = pure (not_executed (panic "index out of range [0] with length 0"))
  start_command c dir (name ∷ args) = and_then (env_values c.env) λ env.
      and_then (in_world (host.run_command dir (name ∷ args) (env_list env))) λ ran. pure (record {
        result = some (new_exec_result dir (name ∷ args) ran.exit_code);
        error = ran.error;
      })

  unfoldable pub exec_step_command : StepsContext → Loaded → M W Executed
  unfolding start_command
  exec_step_command c l = and_then (seen_by c) λ obj.
      elim (expand_args host.codec obj (exec_command l.spec_def)) [
        | err e ↦ pure (not_executed e)
        | ok args ↦ elim (determine_work_dir host.codec obj c l) [
          | err e ↦ pure (not_executed e)
          | ok dir ↦ start_command c dir args
        ]
      ]

  -- readOutputs: those of the result that the file holds, or the declared values
  unfoldable pub read_outputs : StepsContext → Loaded → W → Result (Map Value)
  read_outputs c l w =
      if is_delegate_outputs l.spec_def
      then (wrapping "delegate: %w" [] (host.read_step_result c.output_file w) >>= λ r.
          ok (result_fields r).outputs)
      else read_values host l.spec_def.spec.outputs c.output_file w

  -- What follows a command that ran: outputs, then exports, which go to the global environment.
  unfoldable pub finish_executable :
      Loaded → StepResultBuilder → StepsContext → M W (Outcome × StepsContext)
  finish_executable l b c s = elim (read_outputs c l s.world) [
    | err e ↦
        some ((failed l (record b { outputs = [] }) (wrap_error "output file: %w" [] e), c), s)
    | ok outputs ↦
        let observed = record b { outputs = outputs } in
        elim (read_environment host c.export_file s.world) [
          | err e ↦ some ((failed l observed (wrap_error "export file: %w" [] e), c), s)
          | ok vars ↦
              let (exports, h) = new_environment vars s.heap in
              let made = record s { heap = h } in
              and_then (env_values exports)
                (λ vs.
                  and_then (mutate_env c.global_ctx.env (some exports))
                    λ _. pure (succeeded l (record observed { exports = vs }), c))
                made
        ]
  ]

  -- ExecutableStep.Run: behind the command, behind the expansion of the environment, and as a whole
  unfoldable pub after_command :
      Loaded → StepsContext → Map String → Executed → M W (Outcome × StepsContext)
  after_command l c env executed =
      let b = with_exec_result executed.result (record new_builder { env = env }) in
      elim executed.error [
        | some e ↦ pure (failed l b (wrap_error "exec: %w" [] e), c)
        | none ↦ finish_executable l b c
      ]

  unfoldable pub run_command_in : Loaded → StepsContext → M W (Outcome × StepsContext)
  run_command_in l c =
      and_then (env_values c.env) λ env. and_then (exec_step_command c l) (after_command l c env)

  unfoldable pub run_expanded : Loaded → StepsContext → M W (Outcome × StepsContext)
  run_expanded l c =
      attempt (expand_and_apply_env host c (env_of l.spec_def))
        (λ e. pure (failed l new_builder (wrap_error "expand step env: %w" [] e), c))
        (run_command_in l)

  unfoldable pub run_executable : Loaded → StepsContext → M W (Outcome × StepsContext)
  run_executable l c =
      attempt (in_world (host.write_log "Running step %q" (l.loaded_from.name ∷ [])))
        (λ e. pure (no_result e, c)) λ _. run_expanded l c
