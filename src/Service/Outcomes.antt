-- ===== src/Service/Outcomes.antt =====
-- What Run of the service comes to.
use step_runner.Common.{
  ℕ, String, ◌≡◌, refl, Bool, true, false, Option, none, some, Result, ok, err, inl, inr,
  Option-cases, Result-cases, ◌⊎◌, arith,
}
use step_runner.Runner.Host.{State, M, Host}
use step_runner.Schema.Model.{Signature, Step}
use step_runner.Runner.Model.{SpecDef}
use step_runner.Jobs.{new_job}
use step_runner.Jobs.Opening.{Machine, OpenJob, open_job}
use step_runner.Service.SyncMap.{get}
use step_runner.Service.Handlers.{
  RunRequest, Task, Service, prepare_task, closing_on_error, register, run_new, run_request,
  load_steps,
}

-- An outcome is no success, or one with a value and a state.
abbrev is_success : {W A : Type 0} → Option (Result A × State W) → Bool
is_success none = false
is_success (some (ok a, s)) = true
is_success (some (err e, s)) = false

outcome-cases :
    {W A : Type 0} (o : Option (Result A × State W))
    → (is_success o ≡ false) ⊎ ((a : A) × (s : State W) × (o ≡ some (ok a, s)))
outcome-cases none = inl refl
outcome-cases (some (err e, s)) = inl refl
outcome-cases (some (ok a, s)) = inr (a, s, refl)

module _ {W : Type 0} (machine : Machine W) where
  -- A job that was opened is new, and has the name that it was opened with.
  pub open_job-new_job :
      (id work_dir : String) (s s' : State W) (o : OpenJob)
      → open_job machine id work_dir s ≡ some (ok o, s')
      → o.job ≡ new_job id
  unfolding open_job
  open_job-new_job id work_dir s s' o h = ground arith

module _ {W : Type 0} (host : Host W) (machine : Machine W)
    (read_steps : String → Result (Option Signature × Step)) (env : ℕ) where
  prepare_task-opened :
      (r : RunRequest) (sd : SpecDef) (o : OpenJob) (s s' : State W) (t : Task)
      → prepare_task host machine read_steps env r sd o s ≡ some (ok t, s')
      → t.opened ≡ o
  unfolding prepare_task
  prepare_task-opened r sd o s s' t h = ground arith

  closing_on_error-eq-ok :
      (o : OpenJob) (m : M W (Result Task)) (s s' : State W) (t : Task)
      → closing_on_error host machine read_steps env o m s ≡ some (ok t, s')
      → m s ≡ some (ok t, s')
  unfolding closing_on_error
  closing_on_error-eq-ok o m s s' t h = ground arith

  -- A request that is served makes a new job of its name under a new address.
  pub run_new-register :
      (sv sv' : Service) (r : RunRequest) (s s' : State W)
      → run_new host machine read_steps env sv r s ≡ some (ok sv', s')
      → (t : Task) × (t.opened.job ≡ new_job r.id) × (sv' ≡ register r.id t sv)
  unfolding run_new
  run_new-register sv sv' r s s' h =
      elim (Result-cases (load_steps host machine read_steps env r)) [
        | inr (e, q) ↦ absurd (ground arith)
        | inl (sd, q) ↦ elim (outcome-cases (open_job machine r.id sd.dir s)) [
          | inl bad ↦ absurd (ground arith)
          | inr (o, s1, q1) ↦
              let m = prepare_task host machine read_steps env r sd o in
              elim (outcome-cases (closing_on_error host machine read_steps env o m s1)) [
                | inl bad ↦ absurd (ground arith)
                | inr (t, s2, q2) ↦
                    let opened : t.opened ≡ o =
                      prepare_task-opened r sd o s1 s2 t (closing_on_error-eq-ok o m s1 s2 t q2) in
                    let new : o.job ≡ new_job r.id =
                      open_job-new_job machine r.id sd.dir s s1 o q1 in
                    (t, rw opened new, ground arith)
              ]
        ]
      ]

  -- A request with the name of a job that the service has changes nothing; one with a new name that is
  -- served has a new job of that name at a new address.
  pub run_request-outcome :
      (sv sv' : Service) (r : RunRequest) (s s' : State W)
      → run_request host machine read_steps env sv r s ≡ some (ok sv', s')
      → ((a : ℕ) × (get r.id sv.jobs ≡ some a) × (sv' ≡ sv) × (s' ≡ s))
        ⊎ ((t : Task) × (get r.id sv.jobs ≡ none)
            × (t.opened.job ≡ new_job r.id)
            × (sv' ≡ register r.id t sv))
  unfolding run_request
  run_request-outcome sv sv' r s s' h = elim (Option-cases (get r.id sv.jobs)) [
    | inr (a, q) ↦ inl (a, q, ground arith, ground arith)
    | inl q ↦
        let h' : run_new host machine read_steps env sv r s ≡ some (ok sv', s') =
          rw (q, run_request) at h in
        let (t, new, made) = run_new-register sv sv' r s s' h' in inr (t, q, new, made)
  ]
