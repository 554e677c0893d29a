-- ===== src/Commands/Reported.antt =====
-- cmd/run/run.go: what the command returns, and what its report says.
use native.Mathlib.Omega.{arith}
use step_runner.Common.{
  ℕ, String, ◌≡◌, refl, sym, ◌∙◌, Bool, true, false, Option, none, some, Option-cases, List, [],
  ◌∷◌, ap, Error, errorf, wrap_error, Bool-cases, Result-cases, str_eq, Result, ok, err, inl, inr,
  ◌⊎◌,
}
use step_runner.Proto.{Status, StepResult, result_fields}
use step_runner.Runner.Host.{State, Host}
use step_runner.Runner.Model.{Parsed}
use step_runner.Runner.Context.{StepsContext}
use step_runner.Runner.Run.Builder.{Outcome}
use step_runner.Runner.Run.Reports.{is_success, is_failure, reports, run-IsReport}
use step_runner.Runner.Run.{run}
use step_runner.Jobs.Opening.{Machine}
use step_runner.Commands.Report.{StepResultReport, Marshal, report_file, marshal_of, write_report}
use step_runner.Commands.Flags.{Options}
use step_runner.Commands.Run.{
  Calls, panics, error_result, prepare_run, report_result, report_of, run_and_report, run_command,
}

-- There is a result, and its status is success.
abbrev pub says_success : Option StepResult → Bool
says_success none = false
says_success (some r) = is_success (result_fields r).status

abbrev pub is_fine : Result (Unit {0}) → Bool
is_fine (ok u) = true
is_fine (err e) = false

not_both : (s : Status) → is_failure s ≡ true → is_success s ≡ false
not_both Status.failure h = refl
not_both Status.success h = cc
not_both s h = ground arith

reports-says_success :
    (r : Option StepResult) (e : Option Error)
    → reports r e ≡ true
    → is_fine (error_result e) ≡ says_success r
reports-says_success none none h = cc
reports-says_success none (some e) h = refl
reports-says_success (some r) none h = sym h
reports-says_success (some r) (some e) h = sym (not_both (result_fields r).status h)

-- The file that a report is written to: the one that is named, or one named by the format.
pub data NamesFile (r : StepResultReport) : String → Type 0 where
  given : str_eq r.filename "" ≡ false → NamesFile r r.filename
  json_file :
      str_eq r.filename "" ≡ true → str_eq r.format "json" ≡ true → NamesFile r "step-results.json"
  text_file :
      str_eq r.filename "" ≡ true
      → str_eq r.format "json" ≡ false
      → str_eq r.format "prototext" ≡ true
      → NamesFile r "step-results.txtpb"

module _ {W : Type 0} (host : Host W) (machine : Machine W) (calls : Calls W) where
  -- What a result is in the format of a report.
  abbrev pub Marshals : StepResultReport → Option StepResult → Result String → Type 0
  Marshals r result m =
      ((str_eq r.format "json" ≡ true) × (calls.marshal_json result ≡ m))
      ⊎ ((str_eq r.format "json" ≡ false)
          × (str_eq r.format "prototext" ≡ true)
          × (calls.marshal_text result ≡ m))

  abbrev pub report_error : Error → Error
  report_error e = wrap_error "failed to write step results report: %w" [] e

  -- What is done about a report of an outcome, from a world to another: nothing, if no report is asked
  -- for or the run has panicked; the result in its format is written to its file; or an error is
  -- printed.
  pub data IsWritten : Option StepResultReport → Outcome → W → W → Type 0 where
    not_asked : {o : Outcome} {w : W} → IsWritten none o w w
    panicked :
        {r : StepResultReport} {o : Outcome} {w : W}
        → panics o.error ≡ true
        → IsWritten (some r) o w w
    unsupported :
        {r : StepResultReport} {o : Outcome} {w : W}
        → panics o.error ≡ false
        → str_eq r.format "json" ≡ false
        → str_eq r.format "prototext" ≡ false
        → IsWritten
            (some r)
            o
            w
            (calls.print_error (errorf "unsupported format: %v" (r.format ∷ [])) w)
    not_marshalled :
        {r : StepResultReport} {o : Outcome} {w : W} {e : Error}
        → panics o.error ≡ false
        → Marshals r o.result (err e)
        → IsWritten (some r) o w (calls.print_error (report_error e) w)
    written :
        {r : StepResultReport} {o : Outcome} {w w' : W} {text name : String}
        → panics o.error ≡ false
        → Marshals r o.result (ok text)
        → NamesFile r name
        → machine.write_file name text w ≡ (ok tt, w')
        → IsWritten (some r) o w w'
    not_written :
        {r : StepResultReport} {o : Outcome} {w w' : W} {text name : String} {e : Error}
        → panics o.error ≡ false
        → Marshals r o.result (ok text)
        → NamesFile r name
        → machine.write_file name text w ≡ (err e, w')
        → IsWritten (some r) o w (calls.print_error (report_error e) w')

  marshalled-IsWritten :
      (r : StepResultReport) (o : Outcome) (marshal : Marshal) (name : String) (s s' : State W)
      → panics o.error ≡ false
      → ((m : Result String) → marshal o.result ≡ m → Marshals r o.result m)
      → NamesFile r name
      → marshal_of calls.marshal_json calls.marshal_text machine.write_file r ≡ some marshal
      → report_file r ≡ name
      → report_result host machine calls (some r) o s ≡ some (tt, s')
      → IsWritten (some r) o s.world s'.world
  unfolding report_result write_report
  marshalled-IsWritten r o marshal name s s' fine marshals names found file h =
      elim (Result-cases (marshal o.result)) [
        | inr (e, q) ↦
            let same : calls.print_error (report_error e) s.world ≡ s'.world = ground arith in
            rw (← same) (not_marshalled fine (marshals (err e) q))
        | inl (text, q) ↦
            let wrote = machine.write_file name text s.world in
            elim (Result-cases (wrote.0)) [
              | inr (e, f) ↦
                  let same : calls.print_error (report_error e) wrote.1 ≡ s'.world = ground arith in
                  rw (← same)
                    (not_written fine (marshals (ok text) q) names (ap (λ t. (t, wrote.1)) f))
              | inl (u, f) ↦
                  let same : wrote.1 ≡ s'.world = ground arith in
                  rw (← same) (written fine (marshals (ok text) q) names (ap (λ t. (t, wrote.1)) f))
            ]
      ]

  report_result-IsWritten :
      (report : Option StepResultReport) (o : Outcome) (s s' : State W)
      → report_result host machine calls report o s ≡ some (tt, s')
      → IsWritten report o s.world s'.world
  unfolding report_result write_report marshal_of report_file
  report_result-IsWritten none o s s' h =
      let same : s.world ≡ s'.world = ground arith in rw (← same) not_asked
  report_result-IsWritten (some r) o s s' h = elim (Bool-cases (panics o.error)) [
    | inl stops ↦ let same : s.world ≡ s'.world = ground arith in rw (← same) (panicked stops)
    | inr fine ↦ elim (Bool-cases (str_eq r.format "json")) [
      | inl json ↦ elim (Bool-cases (str_eq r.filename "")) [
        | inl unnamed ↦
            marshalled-IsWritten r o calls.marshal_json "step-results.json" s s' fine
              (λ m q. inl (json, q)) (json_file unnamed json) (ground arith) (ground arith) h
        | inr named ↦
            marshalled-IsWritten r o calls.marshal_json r.filename s s' fine (λ m q. inl (json, q))
              (given named) (ground arith) (ground arith) h
      ]
      | inr other ↦ elim (Bool-cases (str_eq r.format "prototext")) [
        | inl text ↦ elim (Bool-cases (str_eq r.filename "")) [
          | inl unnamed ↦
              marshalled-IsWritten r o calls.marshal_text "step-results.txtpb" s s' fine
                (λ m q. inr (other, text, q)) (text_file unnamed other text) (ground arith)
                (ground arith) h
          | inr named ↦
              marshalled-IsWritten r o calls.marshal_text r.filename s s' fine
                (λ m q. inr (other, text, q)) (given named) (ground arith) (ground arith) h
        ]
        | inr neither ↦
            let same : calls.print_error (errorf "unsupported format: %v" (r.format ∷ [])) s.world
                ≡ s'.world =
              ground arith in
            rw (← same) (unsupported fine other neither)
      ]
    ]
  ]

  -- A step ran in a state, its outcome was reported as asked for, and behind it the output and the
  -- export file of the step's context were removed.
  pub record IsReported (report : Option StepResultReport) (fuel : ℕ) (p : Parsed)
      (c : StepsContext) (s : State W) (o : Outcome) (s' : State W) : Type 0 where
    pub before : State W
    pub after : State W
    pub last : StepsContext
    pub stepped : run host fuel p c s ≡ some ((o, last), before)
    pub reported : IsWritten report o before.world after.world
    pub cleaned :
        s'.world ≡ host.remove_file c.export_file (host.remove_file c.output_file after.world)

  run_and_report-IsReported :
      (report : Option StepResultReport) (fuel : ℕ) (p : Parsed) (c : StepsContext) (s s' : State W)
      (o : Outcome)
      → run_and_report host machine calls report fuel p c s ≡ some (o, s')
      → IsReported report fuel p c s o s' × (reports o.result o.error ≡ true)
  unfolding run_and_report
  run_and_report-IsReported report fuel p c s s' o h = elim (Option-cases (run host fuel p c s)) [
    | inl never ↦ absurd (ground arith)
    | inr ((ran, s1), made) ↦
        elim (Option-cases (report_result host machine calls report ran.0 s1)) [
          | inl never ↦ absurd (ground arith)
          | inr ((u, s2), wrote) ↦
              let same : ran.0 ≡ o = ground arith in
              let end : s'.world
                  ≡ host.remove_file c.export_file (host.remove_file c.output_file s2.world) =
                ground arith in
              rw (← same) (
                record {
                  before = s1;
                  after = s2;
                  last = ran.1;
                  stepped = made;
                  reported = report_result-IsWritten report ran.0 s1 s2 (ground arith);
                  cleaned = end;
                },
                run-IsReport host fuel p c s s1 ran made,
              )
        ]
  ]

  -- The command run either fails before it runs its step, and changes nothing more; or it runs the
  -- step that it has prepared, reports its outcome, and removes the output and the export file of
  -- the step's context. The report that was asked for is the result in its format, written to the
  -- file of its name or to the one of its format; an unknown format, and an error of marshalling or
  -- writing, is printed, and after a panic nothing is reported. The command then returns no error
  -- just when the result says success.
  pub run_command-IsReported :
      (environ : List String) (options : Options) (fuel : ℕ) (s s' : State W)
      (r : Result (Unit {0}))
      → run_command host machine calls environ options fuel s ≡ some (r, s')
      → ((e : Error) × (prepare_run host machine calls environ options s ≡ some (err e, s'))
          × (r ≡ err e))
        ⊎ ((p : Parsed) × (c : StepsContext) × (s1 : State W) × (o : Outcome) × (prepare_run host
                machine calls environ options s
              ≡ some (ok (p, c), s1))
            × IsReported (report_of options) fuel p c s1 o s'
            × (is_fine r ≡ says_success o.result))
  unfolding run_command
  run_command-IsReported environ options fuel s s' r h =
      elim (Option-cases (prepare_run host machine calls environ options s)) [
        | inl never ↦ absurd (ground arith)
        | inr ((err e, s1), failed) ↦ inl (e, failed ∙ ground arith, ground arith)
        | inr ((ok (p, c), s1), prepared) ↦
            let report = report_of options in
            elim (Option-cases (run_and_report host machine calls report fuel p c s1)) [
              | inl never ↦ absurd (ground arith)
              | inr ((o, s2), made) ↦
                  let same : s2 ≡ s' = ground arith in
                  let (seen, fits) = run_and_report-IsReported report fuel p c s1 s2 o made in
                  let end : error_result o.error ≡ r = ground arith in
                  inr (
                    p,
                    c,
                    s1,
                    o,
                    prepared,
                    rw same at seen,
                    rw (← end) (reports-says_success o.result o.error fits),
                  )
            ]
      ]
