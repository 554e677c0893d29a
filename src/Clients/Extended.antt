-- ===== src/Clients/Extended.antt =====
-- pkg/api/client/extended/client.go: the client that runs a job, follows its logs, asks for its status and
-- closes it.
use step_runner.Common.{
  ℕ, String, Option, none, some, [], ◌∷◌, Error, errorf, wrap_error, joined, Result, ok, err,
}
use step_runner.Clients.Basic.{
  ClientRequest, ClientStatus, empty_status, Server, Sink, add_64, run_job, close_job,
  status_of_job, follow_logs,
}

-- FollowOutput: the sink is no part of the state, and may be nil.
pub record Following (S W : Type 0) : Type 0 where
  pub server : S
  pub sink : W
  pub read_logs : ℕ

-- What a call returns, a status and an error that may be nil, with the state.
abbrev pub Followed : Type 0 → Type 0 → Type 0
Followed S W = (ClientStatus × Option Error) × Following S W

-- errors.Join
abbrev pub join_errors : Option Error → Error → Error
join_errors none e = e
join_errors (some f) e = joined f e

-- the error of the group, as Follow wraps it
abbrev pub follow_error : String → Option Error → Option Error
follow_error id none = none
follow_error id (some e) = some (wrap_error "following job %q: %w" (id ∷ []) e)

module _ {S W : Type 0} (server : Server S) (logs : Option (Sink W)) where
  abbrev pub with_status : Option Error → Result ClientStatus × S → ℕ → W → Followed S W
  with_status e (ok st, s) read w = ((st, e), record { server = s; sink = w; read_logs = read })
  with_status e (err f, s) read w =
      ((empty_status, some (join_errors e f)), record { server = s; sink = w; read_logs = read })

  abbrev pub after_logs : String → ℕ → Option ((ℕ × Option Error) × S × W) → Option (Followed S W)
  after_logs id read none = none
  after_logs id read (some ((n, e), s, w)) =
      some (with_status (follow_error id e) (status_of_job server id s) (add_64 read n) w)

  -- Follow
  unfoldable pub follow_job : String → Following S W → Option (Followed S W)
  unfolding follow_logs status_of_job
  follow_job id f = elim logs [
    | none ↦ some ((empty_status, some (errorf "at least one stream sink must be specified" [])), f)
    | some sink ↦
        after_logs id f.read_logs (follow_logs server (some sink) id f.read_logs f.server f.sink)
  ]

  -- the deferred call of Close, whose error is dropped
  abbrev pub closing : String → Option (Followed S W) → Option (Followed S W)
  closing id none = none
  closing id (some (r, f)) = some (r, record f { server = (close_job server id f.server).1 })

  abbrev pub and_follow : String → Result (Unit {0}) × S → Following S W → Option (Followed S W)
  and_follow id (err e, s) f = some ((empty_status, some e), record f { server = s })
  and_follow id (ok u, s) f = closing id (follow_job id (record f { server = s }))

  -- RunAndFollow
  unfoldable pub run_and_follow : ClientRequest → Following S W → Option (Followed S W)
  unfolding run_job follow_job close_job
  run_and_follow r f = and_follow r.id (run_job server r f.server) f
