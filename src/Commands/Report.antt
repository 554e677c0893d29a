-- ===== src/Commands/Report.antt =====
-- pkg/report/step_result_report.go: the report of a run, in a file.
use step_runner.Common.{String, Option, none, some, [], ◌∷◌, errorf, Result, str_eq, if◌then◌else◌}
use step_runner.Proto.{StepResult}
use step_runner.Runner.Host.{M, try, fail, lift, in_world, wrapped}
use step_runner.Service.Variables.{WriteFile}

pub record StepResultReport : Type 0 where
  pub filename : String
  pub format : String

-- NewStepResultReport
abbrev pub new_report : String → String → StepResultReport
new_report filename format = record { filename = filename; format = format }

abbrev pub format_json : String
format_json = "json"

abbrev pub format_proto_text : String
format_proto_text = "prototext"

-- protojson.Marshal or prototext.Marshal, of a result that may be nil
abbrev pub Marshal : Type 0
Marshal = Option StepResult → Result String

-- the second switch of Write
unfoldable pub report_file : StepResultReport → String
report_file r =
    if str_eq r.filename ""
    then (if str_eq r.format format_json
        then "step-results.json"
        else if str_eq r.format format_proto_text
        then "step-results.txtpb"
        else r.filename)
    else r.filename

module _ {W : Type 0} (marshal_json marshal_text : Marshal) (write_file : WriteFile W) where
  -- the first switch of Write
  unfoldable pub marshal_of : StepResultReport → Option Marshal
  marshal_of r =
      if str_eq r.format format_json
      then some marshal_json
      else if str_eq r.format format_proto_text
      then some marshal_text
      else none

  -- Write
  unfoldable pub write_report : StepResultReport → Option StepResult → M W (Result (Unit {0}))
  unfolding report_file marshal_of
  write_report r result = elim (marshal_of r) [
    | none ↦ fail (errorf "unsupported format: %v" (r.format ∷ []))
    | some marshal ↦
        try (wrapped "failed to write step results report: %w" [] (lift (marshal result))) λ text.
          wrapped "failed to write step results report: %w" []
            (in_world (write_file (report_file r) text))
  ]
