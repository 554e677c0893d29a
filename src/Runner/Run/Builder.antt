-- ===== src/Runner/Run/Builder.antt =====
-- step_result_builder.go: what a run has observed.
use step_runner.Common.{String, Option, none, some, List, [], ◌∷◌, ◌++◌, Map, Error}
use step_runner.Value.{Value}
use step_runner.Proto.{Status, success, failure, StepResult, step_result, to_results, ExecResult}
use step_runner.Runner.Model.{Loaded, to_proto, to_proto_step}

pub record StepResultBuilder : Type 0 where
  pub env : Map String
  pub exec_result : Option ExecResult
  pub exports : Map String
  pub outputs : Map Value
  pub sub_step_results : List StepResult

-- NewStepResultBuilder
abbrev pub new_builder : StepResultBuilder
new_builder = record {
  env = [];
  exec_result = none;
  exports = [];
  outputs = [];
  sub_step_results = [];
}

-- WithSubStepResult: a missing result is not kept
abbrev pub with_sub_step_result : Option StepResult → StepResultBuilder → StepResultBuilder
with_sub_step_result none b = b
with_sub_step_result (some r) b = record b { sub_step_results = b.sub_step_results ++ r ∷ [] }

-- WithExecResult
abbrev pub with_exec_result : Option ExecResult → StepResultBuilder → StepResultBuilder
with_exec_result none b = b
with_exec_result (some r) b = record b { exec_result = some r }

-- buildResult
unfoldable pub build_result : Loaded → Status → StepResultBuilder → StepResult
build_result l status b =
    step_result
      (record {
        step = some (to_proto_step l.loaded_from l.params);
        spec_definition = to_proto l.spec_def;
        status = status;
        outputs = b.outputs;
        exports = b.exports;
        env = b.env;
        exec_result = b.exec_result;
      })
      (to_results b.sub_step_results)

-- What `Run` returns: a result and an error, each of which may be nil.
pub record Outcome : Type 0 where
  pub result : Option StepResult
  pub error : Option Error

-- `return result.BuildFailure(), err` and `return result.Build(), nil`
abbrev pub failed : Loaded → StepResultBuilder → Error → Outcome
failed l b e = record { result = some (build_result l failure b); error = some e }

abbrev pub succeeded : Loaded → StepResultBuilder → Outcome
succeeded l b = record { result = some (build_result l success b); error = none }

abbrev pub no_result : Error → Outcome
no_result e = record { result = none; error = some e }
