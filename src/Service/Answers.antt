-- ===== src/Service/Answers.antt =====
-- What Status of the service answers.
use step_runner.Common.{
  ℕ, String, ◌≡◌, ap, ◌∙◌, false, Option, none, some, [], ◌∷◌, lookup-put, length, get_elem?-concat,
  lt-length-of_get_elem?, Error, errorf, Result, ok, err, inl, inr, ◌⊎◌, arith, Option-cases,
  str_eq, eq_refl,
}
use mathlib.Core.Path.{subst}
use step_runner.Runner.Host.{State, Host}
use step_runner.Schema.Model.{Signature, Step}
use step_runner.Jobs.{Job}
use step_runner.Jobs.States.{Reaches}
use step_runner.Jobs.Opening.{Machine, status_of}
use step_runner.Service.SyncMap.{get}
use step_runner.Service.Handlers.{
  RunRequest, Task, Service, register, run_request, status_at, status,
}
use step_runner.Service.Outcomes.{run_request-outcome}
use step_runner.Service.Reachable.{Serves, ran, IsServing}
use step_runner.Service.Invariant.{Serves-IsServing}

abbrev pub unknown : String → Error
unknown id = errorf "no job with id %q" (id ∷ [])

module _ (text : Error → String) {W : Type 0} (host : Host W) (machine : Machine W)
    (read_steps : String → Result (Option Signature × Step)) (env : ℕ) where
  -- the status of a job in a state that one of that name can reach
  abbrev pub IsAnswered : Service → String → Type 0
  IsAnswered sv id =
      (j : Job) × Reaches text id j × (status text sv id ≡ ok (some (status_of text j) ∷ []))

  -- In any state that the service reaches, Status of a name that is not empty either fails, saying
  -- that there is no job of that name, and there is none; or answers with the status of one job,
  -- which is in a state that a job of that name can reach.
  pub status-IsAnswered :
      (sv : Service) (id : String)
      → Serves text host machine read_steps env sv
      → str_eq id "" ≡ false
      → ((get id sv.jobs ≡ none) × (status text sv id ≡ err (unknown id))) ⊎ IsAnswered sv id
  unfolding status status_at
  status-IsAnswered sv id p named = elim (Option-cases (get id sv.jobs)) [
    | inl q ↦ inl (q, ground arith)
    | inr (a, q) ↦
        let i = Serves-IsServing text host machine read_steps env p in
        let (t, at, name) = i.named id a q in
        inr (
          t.opened.job,
          subst (λ n. Reaches text n t.opened.job) name (i.reached a t at),
          ground arith,
        )
  ]

  run_request-get :
      (sv sv' : Service) (r : RunRequest) (s s' : State W)
      → run_request host machine read_steps env sv r s ≡ some (ok sv', s')
      → (a : ℕ) × (get r.id sv'.jobs ≡ some a)
  unfolding register
  run_request-get sv sv' r s s' h =
      elim (run_request-outcome host machine read_steps env sv sv' r s s' h) [
        | inl (a, found, same, t) ↦ (a, rw same found)
        | inr (t, new_name, new, same) ↦ (
          length sv.tasks,
          rw same (
              let e = lookup-put r.id r.id (length sv.tasks) sv.jobs.entries in
              let q = eq_refl r.id in ground arith),
        )
      ]

  status-register :
      (sv : Service) (t : Task) (new id : String)
      → IsServing text sv
      → str_eq id "" ≡ false
      → str_eq new id ≡ false
      → status text (register new t sv) id ≡ status text sv id
  unfolding status status_at register
  status-register sv t new id i named other =
      let e = lookup-put new id (length sv.tasks) sv.jobs.entries in
      elim (Option-cases (get id sv.jobs)) [
        | inl q ↦ ground arith
        | inr (a, q) ↦
            let (u, at, name) = i.named id a q in
            let bound = lt-length-of_get_elem? sv.tasks a u at in
            let p = get_elem?-concat sv.tasks t a in ground arith
      ]

  -- After the service has served a request with a name that is not empty, Status of that name
  -- answers with the status of a job of that name, and of any other name that is not empty it
  -- answers what it did before.
  pub run_request-IsAnswered :
      (sv sv' : Service) (r : RunRequest) (s s' : State W) (id : String)
      → Serves text host machine read_steps env sv
      → run_request host machine read_steps env sv r s ≡ some (ok sv', s')
      → str_eq r.id "" ≡ false
      → str_eq id "" ≡ false
      → str_eq r.id id ≡ false
      → IsAnswered sv' r.id × (status text sv' id ≡ status text sv id)
  run_request-IsAnswered sv sv' r s s' id p h own_named named other = (
    elim (status-IsAnswered sv' r.id (ran r s s' p h) own_named) [
      | inl (nothing, e) ↦ absurd (let (a, found) = run_request-get sv sv' r s s' h in cc)
      | inr answer ↦ answer
    ],
    elim (run_request-outcome host machine read_steps env sv sv' r s s' h) [
      | inl (a, found, same, t) ↦ ap (λ v. status text v id) same
      | inr (t, new_name, new, same) ↦
          ap (λ v. status text v id) same
          ∙ status-register sv t r.id id (Serves-IsServing text host machine read_steps env p) named
              other
    ],
  )
