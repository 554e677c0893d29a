-- ===== src/Jobs.antt =====
-- pkg/api/internal/jobs/jobs.go: a job, which runs once, and is closed once.
pub mod States
pub mod Completion
pub mod Opening
use step_runner.Common.{
  ℕ, suc, String, Bool, true, false, ◌&&◌, ◌||◌, Option, none, some, List, [], ◌∷◌, Error, errorf,
  wrap_error, canceled, panic, is_cancellation, Result, ok, err, ◌>>=◌, has_suffix, if◌then◌else◌,
}
use step_runner.Proto
use step_runner.Proto.{Status, StepResult, result_fields}
use step_runner.Runner.Run.Builder.{Outcome}

-- How far the goroutine of `Run` is: before its first call, in the step, behind onRunCompletion, or
-- behind the deferred call that sends on finishC. And how far `Close` is.
pub data Phase : Type 0 where
  idle in_step completed exited : Phase

pub data Closing : Type 0 where
  not_closed waiting closed : Closing

-- Job. The two `sync.Once` are where the phases start; `signals` counts what finishC holds.
pub record Job : Type 0 where
  pub id : String
  pub phase : Phase
  pub closing : Closing
  pub ctx_done : Bool
  pub error : Option Error
  pub start_time : Option ℕ
  pub finish_time : Option ℕ
  pub signals : ℕ
  pub logs_closed : Bool
  pub tmp_dir_removed : Bool
  pub status : Status

-- New, behind what it does to directories and files
abbrev pub new_job : String → Job
new_job id = record {
  id = id;
  phase = idle;
  closing = not_closed;
  ctx_done = false;
  error = none;
  start_time = none;
  finish_time = none;
  signals = 0;
  logs_closed = false;
  tmp_dir_removed = false;
  status = Status.unspecified;
}

-- Run up to the call of the step; a later call does nothing.
abbrev start_in : Phase → ℕ → Job → Job
start_in idle now j = record j { phase = in_step; start_time = some now; status = Status.running }
start_in _ now j = j

unfoldable pub start : ℕ → Job → Job
start now j = start_in j.phase now j

-- fmt.Errorf with %w on an error that may be nil
abbrev wrap_option : String → List String → Option Error → Error
wrap_option format args none = errorf format args
wrap_option format args (some e) = wrap_error format args e

-- `text` is the method Error of an error.
module _ (text : Error → String) where
  -- whether an error of a failed step says that the job was cancelled; a nil error has no text
  unfoldable pub says_cancelled : Bool → Option Error → Result Bool
  says_cancelled false none = ok false
  says_cancelled true none = err (panic "invalid memory address or nil pointer dereference")
  says_cancelled ctx_done (some e) =
      ok (is_cancellation e || (ctx_done && has_suffix (text e) "signal: killed"))

  -- the switch of onRunCompletion
  unfoldable pub complete_as : Status → Option Error → Job → Result Job
  complete_as Status.unspecified e j = ok (record j {
    error = some (wrap_option "job %q did not start running: %w" (j.id ∷ []) e);
    status = Status.failure;
  })
  complete_as Status.running e j = ok (record j {
    error = some (wrap_option "job %q did not finish running: %w" (j.id ∷ []) e);
    status = Status.failure;
  })
  complete_as Status.failure e j = says_cancelled j.ctx_done e >>= λ cancelled. ok (
      if cancelled
      then record j {
        error = some (wrap_option "job %q cancelled: %w" (j.id ∷ []) e);
        status = Status.cancelled;
      }
      else record j { error = e; status = Status.failure })
  complete_as status e j = ok (record j { error = e; status = status })

  -- onRunCompletion: a nil result has no status
  unfoldable pub on_run_completion : ℕ → Outcome → Job → Result Job
  on_run_completion now o j = elim o.result [
    | none ↦ err (panic "invalid memory address or nil pointer dereference")
    | some r ↦
        complete_as (result_fields r).status o.error
          (record j { phase = completed; finish_time = some now })
  ]

-- the deferred call of Run
abbrev pub exit_run : Job → Job
exit_run j = record j { phase = exited; logs_closed = true; signals = suc j.signals }

-- Close up to the select; a later call does nothing.
abbrev close_in : Closing → Job → Job
close_in not_closed j = record j { closing = waiting; ctx_done = true }
close_in _ j = j

unfoldable pub close : Job → Job
close j = close_in j.closing j

-- the first case of the select: Run has exited
abbrev pub close_after_exit : ℕ → Job → Job
close_after_exit signals j = record j {
  closing = closed;
  signals = signals;
  tmp_dir_removed = true;
}

abbrev closed_status : Status → Status
closed_status Status.unspecified = Status.cancelled
closed_status s = s

abbrev closed_error : Option Error → Option Error
closed_error none = some canceled
closed_error (some e) = some e

-- the second case: the timer fires
unfoldable pub close_after_wait : Job → Job
close_after_wait j = record j {
  closing = closed;
  status = closed_status j.status;
  error = closed_error j.error;
  tmp_dir_removed = true;
}
