-- ===== src/Jobs/States.antt =====
-- The states that a job can reach, in every order of its events.
use step_runner.Common.{
  leb, ◌==◌, ℕ, suc, String, ◌≡◌, refl, Bool, true, false, Option, none, some, Option-cases, Error,
  ok, arith, inl, inr,
}
use step_runner.Proto.{Status, result_fields}
use step_runner.Runner.Run.Builder.{Outcome}
use step_runner.Jobs.{
  Phase, idle, in_step, completed, exited, waiting, Job, new_job, start, says_cancelled,
  complete_as, on_run_completion, exit_run, close, close_after_exit, close_after_wait,
}

module _ (text : Error → String) where
  -- The events of a job that was made with the given name: `Run` in three parts and `Close` in two.
  pub data Reaches (id : String) : Job → Type 0 where
    made : Reaches id (new_job id)
    started : {j : Job} (now : ℕ) → Reaches id j → Reaches id (start now j)
    finished :
        {j j' : Job} (now : ℕ) (o : Outcome)
        → Reaches id j
        → j.phase ≡ in_step
        → on_run_completion text now o j ≡ ok j'
        → Reaches id j'
    left : {j : Job} → Reaches id j → j.phase ≡ completed → Reaches id (exit_run j)
    close_called : {j : Job} → Reaches id j → Reaches id (close j)
    saw_exit :
        {j : Job} (n : ℕ)
        → Reaches id j
        → j.closing ≡ waiting
        → j.signals ≡ suc n
        → Reaches id (close_after_exit n j)
    waited : {j : Job} → Reaches id j → j.closing ≡ waiting → Reaches id (close_after_wait j)

abbrev is_terminal : Status → Bool
is_terminal Status.success = true
is_terminal Status.failure = true
is_terminal Status.cancelled = true
is_terminal _ = false

-- A job that was not started has no step to report on.
abbrev is_unstarted : Status → Bool
is_unstarted Status.unspecified = true
is_unstarted Status.cancelled = true
is_unstarted _ = false

-- What the fields say in each phase of `Run`.
abbrev pub fits : Phase → Status → Option ℕ → Option ℕ → Bool
fits idle status none none = is_unstarted status
fits in_step Status.running (some t) none = true
fits completed status (some t) (some u) = is_terminal status
fits exited status (some t) (some u) = is_terminal status
fits _ _ _ _ = false

abbrev pub IsSound : Job → Type 0
IsSound j = fits j.phase j.status j.start_time j.finish_time ≡ true

-- What finishC, which has room for one signal, holds: none before `Run` has exited.
abbrev pub has_room : Phase → ℕ → Bool
has_room exited signals = leb signals 1
has_room _ signals = signals == 0

module _ (text : Error → String) where
  complete_as-terminal :
      (status : Status) (e : Option Error) (j j' : Job)
      → complete_as text status e j ≡ ok j'
      → (is_terminal j'.status ≡ true)
        × (j'.phase ≡ j.phase)
        × (j'.start_time ≡ j.start_time)
        × (j'.finish_time ≡ j.finish_time)
        × (j'.signals ≡ j.signals)
  unfolding complete_as says_cancelled
  complete_as-terminal status e j j' h = ground arith

  on_run_completion-IsSound :
      (now : ℕ) (o : Outcome) (j j' : Job)
      → IsSound j
      → j.phase ≡ in_step
      → on_run_completion text now o j ≡ ok j'
      → IsSound j'
  unfolding on_run_completion
  on_run_completion-IsSound now o j j' sound at h = elim (Option-cases o.result) [
    | inl nothing ↦ ground arith
    | inr (r, given) ↦
        let h' = rw given at h in
        let (terminal, phase, start, finish, signals) =
          complete_as-terminal (result_fields r).status o.error
            (record j { phase = completed; finish_time = some now }) j' h' in
        ground arith
  ]

  -- In every order of its events a job fits its phase: a job that was not started is unspecified or
  -- cancelled and has no times, one whose step runs says running, and one whose step has returned is a
  -- success, a failure or cancelled, with both times.
  pub Reaches-IsSound : {id : String} {j : Job} → Reaches text id j → IsSound j
  unfolding start close close_after_wait
  Reaches-IsSound made = refl
  Reaches-IsSound (started {j} now r) = let sound = Reaches-IsSound r in ground arith
  Reaches-IsSound (finished {j} {j'} now o r at h) =
      on_run_completion-IsSound now o j j' (Reaches-IsSound r) at h
  Reaches-IsSound (left {j} r at) = let sound = Reaches-IsSound r in ground arith
  Reaches-IsSound (close_called {j} r) = let sound = Reaches-IsSound r in ground arith
  Reaches-IsSound (saw_exit {j} n r at s) = Reaches-IsSound r
  Reaches-IsSound (waited {j} r at) = let sound = Reaches-IsSound r in ground arith

  on_run_completion-has_room :
      (now : ℕ) (o : Outcome) (j j' : Job)
      → has_room j.phase j.signals ≡ true
      → j.phase ≡ in_step
      → on_run_completion text now o j ≡ ok j'
      → has_room j'.phase j'.signals ≡ true
  unfolding on_run_completion
  on_run_completion-has_room now o j j' room at h = elim (Option-cases o.result) [
    | inl nothing ↦ ground arith
    | inr (r, given) ↦
        let h' = rw given at h in
        let (terminal, phase, start, finish, signals) =
          complete_as-terminal (result_fields r).status o.error
            (record j { phase = completed; finish_time = some now }) j' h' in
        ground arith
  ]

  -- finishC never holds more than the one signal that it has room for, and none before `Run` has
  -- exited: the send in `Run` does not block.
  pub Reaches-has_room :
      {id : String} {j : Job} → Reaches text id j → has_room j.phase j.signals ≡ true
  unfolding start close close_after_wait
  Reaches-has_room made = refl
  Reaches-has_room (started {j} now r) = let room = Reaches-has_room r in ground arith
  Reaches-has_room (finished {j} {j'} now o r at h) =
      on_run_completion-has_room now o j j' (Reaches-has_room r) at h
  Reaches-has_room (left {j} r at) = let room = Reaches-has_room r in ground arith
  Reaches-has_room (close_called {j} r) = let room = Reaches-has_room r in ground arith
  Reaches-has_room (saw_exit {j} n r at s) = let room = Reaches-has_room r in ground arith
  Reaches-has_room (waited {j} r at) = Reaches-has_room r
