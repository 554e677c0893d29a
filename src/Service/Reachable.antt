-- ===== src/Service/Reachable.antt =====
-- The states of a service, in every order of its requests and of the events of its jobs.
use step_runner.Common.{ℕ, suc, String, ◌≡◌, Option, some, get_elem?, Error, Result, ok}
use step_runner.Runner.Host.{State, Host}
use step_runner.Runner.Run.Builder.{Outcome}
use step_runner.Schema.Model.{Signature, Step}
use step_runner.Jobs.{
  Job, in_step, completed, waiting, closed, start, on_run_completion, exit_run, close_after_exit,
  close_after_wait,
}
use step_runner.Jobs.States.{Reaches, started, finished, left, saw_exit, waited}
use step_runner.Jobs.Opening.{Machine}
use step_runner.Service.SyncMap.{get}
use step_runner.Service.Handlers.{
  RunRequest, Task, Service, new_service, run_request, update_job, begin_close, end_close,
}

module _ (text : Error → String) where
  -- One event of a job other than a call of Close.
  pub data Moves : Job → Job → Type 0 where
    starts : (j : Job) (now : ℕ) → Moves j (start now j)
    finishes :
        (j j' : Job) (now : ℕ) (o : Outcome)
        → j.phase ≡ in_step
        → on_run_completion text now o j ≡ ok j'
        → Moves j j'
    leaves : (j : Job) → j.phase ≡ completed → Moves j (exit_run j)
    sees_exit :
        (j : Job) (n : ℕ) → j.closing ≡ waiting → j.signals ≡ suc n → Moves j (close_after_exit n j)
    waits : (j : Job) → j.closing ≡ waiting → Moves j (close_after_wait j)

  pub Moves-Reaches :
      {id : String} {j j' : Job} → Moves j j' → Reaches text id j → Reaches text id j'
  Moves-Reaches (starts j now) r = started now r
  Moves-Reaches (finishes j j' now o at h) r = finished now o r at h
  Moves-Reaches (leaves j at) r = left r at
  Moves-Reaches (sees_exit j n at s) r = saw_exit n r at s
  Moves-Reaches (waits j at) r = waited r at

  module _ {W : Type 0} (host : Host W) (machine : Machine W)
      (read_steps : String → Result (Option Signature × Step)) (env : ℕ) where
    -- A call of Close removes the name once the job that it got under that name is closed: the name may
    -- stand for another job by then.
    pub data Serves : Service → Type 0 where
      serving : Serves new_service
      ran :
          {sv sv' : Service} (r : RunRequest) (s s' : State W)
          → Serves sv
          → run_request host machine read_steps env sv r s ≡ some (ok sv', s')
          → Serves sv'
      moved :
          {sv : Service} (a : ℕ) (t : Task) (j : Job)
          → Serves sv
          → get_elem? sv.tasks a ≡ some t
          → Moves t.opened.job j
          → Serves (update_job (λ i. j) a sv)
      close_began : {sv : Service} (id : String) → Serves sv → Serves (begin_close id sv)
      close_ended :
          {sv : Service} (id : String) (a : ℕ) (t : Task)
          → Serves sv
          → get_elem? sv.tasks a ≡ some t
          → t.opened.job.id ≡ id
          → t.opened.job.closing ≡ closed
          → Serves (end_close id sv)

-- Every name stands for a job of that name, in a state that a job of that name can reach.
pub record IsServing (text : Error → String) (sv : Service) : Type 0 where
  pub reached :
      (a : ℕ) (t : Task) → get_elem? sv.tasks a ≡ some t → Reaches text t.opened.job.id t.opened.job
  pub named :
      (id : String) (a : ℕ)
      → get id sv.jobs ≡ some a
      → (t : Task) × (get_elem? sv.tasks a ≡ some t) × (t.opened.job.id ≡ id)
