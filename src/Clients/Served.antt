-- ===== src/Clients/Served.antt =====
-- pkg/api/client/basic/client.go: what the client's Status says of a service.
use step_runner.Common.{
  ℕ, String, ◌≡◌, false, Option, none, [], ◌∷◌, Error, wrap_error, Result, ok, err, inl, inr, ◌⊎◌,
  str_eq, arith,
}
use step_runner.Runner.Host.{Host}
use step_runner.Schema.Model.{Signature, Step}
use step_runner.Jobs.{Job}
use step_runner.Jobs.States.{Reaches}
use step_runner.Jobs.Opening.{Machine, status_of}
use step_runner.Service.SyncMap.{get}
use step_runner.Service.Handlers.{Service, status}
use step_runner.Service.Reachable.{Serves}
use step_runner.Service.Answers.{unknown, status-IsAnswered}
use step_runner.Clients.Basic.{Server, status_of_job, from_status, from_proto, first_status}

-- What a call returns whose error is sent back.
abbrev pub sent_back : {A : Type 0} → (Error → Error) → Result A → Result A
sent_back rpc_error (ok a) = ok a
sent_back rpc_error (err e) = err (rpc_error e)

module _ (text : Error → String) {W : Type 0} (host : Host W) (machine : Machine W)
    (read_steps : String → Result (Option Signature × Step)) (env : ℕ) {S : Type 0}
    (server : Server S) (rpc_error : Error → Error) where
  -- Status of a client, of a name that is not empty, at a service in any state that it reaches: it
  -- fails with what gRPC makes of the service's error, wrapped, if there is no job of the name, and
  -- else it is what the client makes of the status of one job, which a job of that name can reach.
  pub status_of_job-IsAnswered :
      (sv : Service) (id : String) (s s' : S)
      → Serves text host machine read_steps env sv
      → str_eq id "" ≡ false
      → server.status id s ≡ (sent_back rpc_error (status text sv id), s')
      → ((get id sv.jobs ≡ none)
          × (status_of_job server id s ≡ (
            err (wrap_error "getting status for job %q: %w" (id ∷ []) (rpc_error (unknown id))),
            s',
          )))
        ⊎ ((j : Job) × Reaches text id j
            × (status_of_job server id s ≡ (ok (from_status (status_of text j)), s')))
  unfolding status_of_job from_proto first_status
  status_of_job-IsAnswered sv id s s' serves named answered =
      elim (status-IsAnswered text host machine read_steps env sv id serves named) [
        | inl (nothing, e) ↦ inl (nothing, ground arith)
        | inr (j, reached, e) ↦ inr (j, reached, ground arith)
      ]
