-- ===== src/Service/Invariant.antt =====
-- Every operation of the service keeps the names of its jobs.
use step_runner.Common.{
  ◌==◌, ℕ, String, ◌≡◌, refl, ap, sym, ◌∙◌, Option, some, lookup, lookup-put, lookup-delete, length,
  get_elem?, get_elem?-concat, get_elem?-set, set, lt-length-of_get_elem?, Error, Result, ok, inl,
  inr, arith, Option-cases, Bool-cases, str_eq, eq_iff,
}
use step_runner.Runner.Host.{Host}
use step_runner.Schema.Model.{Signature, Step}
use mathlib.Core.Path.{subst}
use step_runner.Runner.Run.Builder.{Outcome}
use step_runner.Jobs.{
  Job, new_job, start, close, on_run_completion, complete_as, says_cancelled, close_after_wait,
}
use step_runner.Jobs.States.{Reaches, made, started, finished, left, close_called, saw_exit, waited}
use step_runner.Jobs.Opening.{Machine}
use step_runner.Service.SyncMap.{get}
use step_runner.Service.Handlers.{
  Task, Service, new_service, register, on_job, update_job, begin_close, end_close,
}
use step_runner.Service.Outcomes.{run_request-outcome}
use step_runner.Service.Reachable.{
  Moves-Reaches, Serves, serving, ran, moved, close_began, close_ended, IsServing,
}

module _ (text : Error → String) where
  new_service-IsServing : IsServing text new_service
  unfolding lookup
  new_service-IsServing = record { reached = λ a t h. cc; named = λ id a h. cc }

  register-IsServing :
      (sv : Service) (t : Task) (id : String)
      → t.opened.job ≡ new_job id
      → IsServing text sv
      → IsServing text (register id t sv)
  unfolding register
  register-IsServing sv t id new i = record {
    reached = λ a u h.
        let e = get_elem?-concat sv.tasks t a in
        elim (Bool-cases (a == length sv.tasks)) [
          | inl q ↦
              let same : u ≡ t = ground arith in
              let r : Reaches text id (new_job id) = made in rw (same, new) r
          | inr q ↦ i.reached a u (ground arith)
        ];
    named = λ key a h.
        let e = lookup-put id key (length sv.tasks) sv.jobs.entries in
        let p = get_elem?-concat sv.tasks t a in
        elim (Bool-cases (str_eq id key)) [
          | inl q ↦
              let same : id ≡ key = (eq_iff id key).0 q in
              (t, ground arith, ap (λ j. j.id) new ∙ same)
          | inr q ↦
              let (u, at, name) = i.named key a (ground arith) in
              let bound = lt-length-of_get_elem? sv.tasks a u at in (u, ground arith, name)
        ];
  }

  set-IsServing :
      (sv : Service) (a : ℕ) (t u : Task)
      → get_elem? sv.tasks a ≡ some t
      → Reaches text t.opened.job.id u.opened.job
      → u.opened.job.id ≡ t.opened.job.id
      → IsServing text sv
      → IsServing text (record sv { tasks = set sv.tasks a u })
  set-IsServing sv a t u at reaches name i =
      let bound = lt-length-of_get_elem? sv.tasks a t at in
      record {
        reached = λ b v h.
            let e = get_elem?-set sv.tasks a b u bound in
            elim (Bool-cases (b == a)) [
              | inl q ↦
                  let same : v ≡ u = ground arith in
                  rw same (subst (λ id. Reaches text id u.opened.job) (sym name) reaches)
              | inr q ↦ i.reached b v (ground arith)
            ];
        named = λ key b h.
            let (v, found, v_name) = i.named key b h in
            let e = get_elem?-set sv.tasks a b u bound in
            elim (Bool-cases (b == a)) [
              | inl q ↦
                  let same : v ≡ t = ground arith in
                  (u, ground arith, name ∙ ap (λ w. w.opened.job.id) (sym same) ∙ v_name)
              | inr q ↦ (v, ground arith, v_name)
            ];
      }

  update_job-IsServing :
      (sv : Service) (a : ℕ) (t : Task) (f : Job → Job)
      → get_elem? sv.tasks a ≡ some t
      → (Reaches text t.opened.job.id t.opened.job → Reaches text t.opened.job.id (f t.opened.job))
      → (f t.opened.job).id ≡ t.opened.job.id
      → IsServing text sv
      → IsServing text (update_job f a sv)
  unfolding update_job
  update_job-IsServing sv a t f at step_reaches name i =
      let changed = set-IsServing sv a t (on_job f t) at (step_reaches (i.reached a t at)) name i in
      rw (at, update_job) changed

  end_close-IsServing :
      (sv : Service) (id : String) → IsServing text sv → IsServing text (end_close id sv)
  unfolding end_close
  end_close-IsServing sv id i = record {
    reached = i.reached;
    named = λ key a h.
        let e = lookup-delete id key sv.jobs.entries in
        i.named key a (ground (arith, eq_iff id key));
  }

  on_run_completion-id :
      (now : ℕ) (o : Outcome) (j j' : Job) → on_run_completion text now o j ≡ ok j' → j'.id ≡ j.id
  unfolding on_run_completion complete_as says_cancelled
  on_run_completion-id now o j j' h = elim (Option-cases o.result) [
    | inl q ↦ ground arith
    | inr (r, q) ↦ ground arith
  ]

  -- No event changes the name of a job.
  Reaches-id : {id : String} {j : Job} → Reaches text id j → j.id ≡ id
  unfolding start close close_after_wait
  Reaches-id made = refl
  Reaches-id (started {j} now r) = let e = Reaches-id r in ground arith
  Reaches-id (finished {j} {j'} now o r at h) = on_run_completion-id now o j j' h ∙ Reaches-id r
  Reaches-id (left {j} r at) = Reaches-id r
  Reaches-id (close_called {j} r) = let e = Reaches-id r in ground arith
  Reaches-id (saw_exit {j} n r at s) = Reaches-id r
  Reaches-id (waited {j} r at) = Reaches-id r

  begin_close-IsServing :
      (sv : Service) (id : String) → IsServing text sv → IsServing text (begin_close id sv)
  unfolding begin_close
  begin_close-IsServing sv id i = elim (Option-cases (get id sv.jobs)) [
    | inl q ↦ rw (q, begin_close) i
    | inr (a, q) ↦
        let (t, at, name) = i.named id a q in
        let after =
          update_job-IsServing sv a t close at (λ r. close_called r)
            (Reaches-id (close_called (i.reached a t at))) i in
        rw (q, begin_close) after
  ]

  module _ {W : Type 0} (host : Host W) (machine : Machine W)
      (read_steps : String → Result (Option Signature × Step)) (env : ℕ) where
    -- In every order of its requests and of the events of its jobs, each name that the service has
    -- stands for a job of that name, which is in a state that a job can reach.
    pub Serves-IsServing :
        {sv : Service} → Serves text host machine read_steps env sv → IsServing text sv
    Serves-IsServing serving = new_service-IsServing
    Serves-IsServing (ran {sv} {sv'} r s s' p h) =
        let i = Serves-IsServing p in
        elim (run_request-outcome host machine read_steps env sv sv' r s s' h) [
          | inl (a, found, same, t) ↦ rw same i
          | inr (t, new_name, new, same) ↦ rw same (register-IsServing sv t r.id new i)
        ]
    Serves-IsServing (moved {sv} a t j p at m) =
        let i = Serves-IsServing p in
        let next = Moves-Reaches text m (i.reached a t at) in
        update_job-IsServing sv a t (λ k. j) at (λ r. Moves-Reaches text m r) (Reaches-id next) i
    Serves-IsServing (close_began {sv} id p) = begin_close-IsServing sv id (Serves-IsServing p)
    Serves-IsServing (close_ended {sv} id a t p at name done) =
        end_close-IsServing sv id (Serves-IsServing p)
