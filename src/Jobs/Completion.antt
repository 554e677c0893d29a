-- ===== src/Jobs/Completion.antt =====
-- onRunCompletion on what the runner returns.
use step_runner.Common.{
  ℕ, String, ◌≡◌, Bool, true, false, not, Option, some, is_some, Result-cases, Error, ok, arith,
  inl, inr,
}
use step_runner.Proto.{Status, StepResult, result_fields}
use step_runner.Runner.Host.{State, Host}
use step_runner.Runner.Model.{Parsed}
use step_runner.Runner.Context.{StepsContext}
use step_runner.Runner.Run.{run}
use step_runner.Runner.Run.Builder.{Outcome}
use step_runner.Runner.Run.Reports.{reports, run-IsReport}
use step_runner.Jobs.{Job, completed, says_cancelled, complete_as, on_run_completion}

abbrev ends_well : Status → Bool
ends_well Status.success = true
ends_well _ = false

abbrev has_ended : Status → Bool
has_ended Status.success = true
has_ended Status.failure = true
has_ended Status.cancelled = true
has_ended _ = false

-- The job takes the outcome: it has ended, and it has an error unless it ended well.
pub record Takes (text : Error → String) (now : ℕ) (o : Outcome) (j : Job) : Type 0 where
  pub job : Job
  pub returns : on_run_completion text now o j ≡ ok job
  pub ended : has_ended job.status ≡ true
  pub agrees : is_some job.error ≡ not (ends_well job.status)

module _ (text : Error → String) where
  complete_as-agrees :
      (r : StepResult) (e : Option Error) (j : Job)
      → reports (some r) e ≡ true
      → (j' : Job) × (complete_as text (result_fields r).status e j ≡ ok j')
        × (has_ended j'.status ≡ true)
        × (is_some j'.error ≡ not (ends_well j'.status))
  unfolding complete_as says_cancelled
  complete_as-agrees r e j h = elim (Result-cases (complete_as text (result_fields r).status e j)) [
    | inl (j', returned) ↦ (j', returned, ground arith, ground arith)
    | inr (p, panicked) ↦ ground arith
  ]

  -- The outcome of a run that returns a result completes the job without a panic. The job has then
  -- ended as a success, a failure or cancelled, and holds an error exactly if it is not a success.
  pub run-Takes :
      {W : Type 0} (host : Host W) (fuel : ℕ) (p : Parsed) (c : StepsContext) (s s' : State W)
      (ran : Outcome × StepsContext) (r : StepResult) (now : ℕ) (j : Job)
      → run host fuel p c s ≡ some (ran, s')
      → ran.0.result ≡ some r
      → Takes text now ran.0 j
  unfolding on_run_completion
  run-Takes host fuel p c s s' ran r now j h given =
      let report = run-IsReport host fuel p c s s' ran h in
      let (job, returns, ended, agrees) =
        complete_as-agrees r ran.0.error (record j { phase = completed; finish_time = some now })
          (rw given at report) in
      record { job = job; returns = rw given returns; ended = ended; agrees = agrees }
