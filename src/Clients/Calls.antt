-- ===== src/Clients/Calls.antt =====
-- pkg/api/client/extended/client.go: which calls the client makes, and what it counts.
use Prim.Native.Char.{Char}
use step_runner.Common.{
  ℕ, ◌+◌, ◌*◌, ◌%◌, ◌^◌, ◌<◌, ◌++◌, length, String, ◌≡◌, refl, sym, ap, ◌∙◌, Bool, true, false,
  Option, none, some, Option-cases, List, [], ◌∷◌, map, Error, wrapping, Result, ok, err,
  Result-cases, is_ok, arith, inl, inr, if◌then◌else◌, is_some,
}
use mathlib.Core.List.{append_assoc, append-nil}
use step_runner.Jobs.Opening.{StatusMessage}
use step_runner.Service.Handlers.{RunRequest}
use step_runner.Clients.Basic.{
  ClientRequest, ClientStatus, Received, message, stream_end, Server, Sink, add_64, receive,
  follow_logs, and_receive, run_job, close_job, status_of_job, to_proto,
}
use step_runner.Clients.Extended.{
  Following, Followed, with_status, after_logs, follow_error, and_follow, follow_job,
  run_and_follow, closing,
}
use step_runner.Clients.Followed.{TakesAll, flat, receive-flat}

with_status-state :
    {S W : Type 0} (server : Server S) (logs : Option (Sink W)) (e : Option Error)
    (answer : Result ClientStatus × S) (read : ℕ) (w : W)
    → ((with_status server logs e answer read w).1.sink ≡ w)
      × ((with_status server logs e answer read w).1.read_logs ≡ read)
      × ((with_status server logs e answer read w).1.server ≡ answer.1)
with_status-state server logs e (ok st, s) read w = (refl, refl, refl)
with_status-state server logs e (err f, s) read w = (refl, refl, refl)

and_receive-received :
    {S W : Type 0} (server : Server S) (sink : Sink W) (id : String) (offset : ℕ)
    (stream : List Received) (s : S) (w w' : W) (got : ℕ × Option Error)
    → receive sink offset stream w ≡ some (got, w')
    → and_receive server sink id offset (ok stream, s) w ≡ some (got, s, w')
and_receive-received server sink id offset stream s w w' got received = ground arith

module _ {S W : Type 0} (server : Server S) (all : TakesAll W) where
  -- After Follow has received messages up to the end of the stream, its writer has them all, behind
  -- what it had. But the count of what was read, from which the next call would go on, is then twice
  -- what it was before and their bytes, as an int64: it counts what was read before the call twice.
  pub follow_job-read_logs :
      (id : String) (f : Following S W) (s : S) (ps : List (List Char))
      → f.read_logs < 2 ^ 64
      → server.follow_logs id f.read_logs f.server ≡ (ok (map message ps ++ stream_end ∷ []), s)
      → (r : Followed S W) × (follow_job server (some all.sink) id f ≡ some r)
        × (all.content r.1.sink ≡ all.content f.sink ++ flat ps)
        × (r.1.read_logs ≡ (2 * f.read_logs + length (flat ps)) % 2 ^ 64)
  unfolding follow_job follow_logs
  follow_job-read_logs id f s ps word answered =
      let (w', received, content) = receive-flat all f.read_logs ps f.sink word in
      let n = (f.read_logs + length (flat ps)) % 2 ^ 64 in
      let logs = some all.sink in
      let stream = map message ps ++ stream_end ∷ [] in
      let answer = status_of_job server id s in
      let state = with_status-state server logs none answer (add_64 f.read_logs n) w' in
      (
        with_status server logs none answer (add_64 f.read_logs n) w',
        ap
              (λ a.
                after_logs server logs id f.read_logs
                  (and_receive server all.sink id f.read_logs a f.sink))
              answered
            ∙ ap (after_logs server logs id f.read_logs) (
                and_receive-received server all.sink id f.read_logs stream s f.sink w' (n, none)
                  received),
        ap all.content state.0 ∙ content,
        state.1 ∙ omega arith,
      )

-- A call of the service.
pub data Call : Type 0 where
  run_call : RunRequest → Call
  close_call : String → Call
  status_call : String → Call
  follow_call : String → ℕ → Call

-- What a service answers, after the calls that it has had.
pub record Answers : Type 0 where
  pub run : RunRequest → List Call → Result (Unit {0})
  pub close : String → List Call → Result (Unit {0})
  pub status : String → List Call → Result (List (Option StatusMessage))
  pub follow_logs : String → ℕ → List Call → Result (List Received)

-- A service that answers so and keeps its calls.
abbrev pub recorder : Answers → Server (List Call)
recorder a = record {
  run = λ r calls. (a.run r calls, calls ++ run_call r ∷ []);
  close = λ id calls. (a.close id calls, calls ++ close_call id ∷ []);
  status = λ id calls. (a.status id calls, calls ++ status_call id ∷ []);
  follow_logs =
      λ id offset calls. (a.follow_logs id offset calls, calls ++ follow_call id offset ∷ []);
}

-- The calls for a job that runs: with a writer its logs and its status are asked for, before it is closed.
abbrev pub job_calls : Bool → String → ℕ → List Call
job_calls true id offset = follow_call id offset ∷ status_call id ∷ close_call id ∷ []
job_calls false id offset = close_call id ∷ []

module _ {W : Type 0} (a : Answers) (logs : Option (Sink W)) where
  and_receive-calls :
      (sink : Sink W) (id : String) (offset : ℕ) (answer : Result (List Received) × List Call)
      (w : W) (n : ℕ) (e : Option Error) (calls : List Call) (w' : W)
      → and_receive (recorder a) sink id offset answer w ≡ some ((n, e), calls, w')
      → calls ≡ answer.1
  and_receive-calls sink id offset (err f, s) w n e calls w' h = ground arith
  and_receive-calls sink id offset (ok stream, s) w n e calls w' h =
      elim (Option-cases (receive sink offset stream w)) [
        | inl never ↦ absurd (ground arith)
        | inr (got, q) ↦ ground arith
      ]

  after_logs-calls :
      (id : String) (read : ℕ) (got : Option ((ℕ × Option Error) × List Call × W))
      (res : Followed (List Call) W) (calls : List Call)
      → ((n : ℕ) (e : Option Error) (s : List Call) (w : W) → got ≡ some ((n, e), s, w) → s ≡ calls)
      → after_logs (recorder a) logs id read got ≡ some res
      → res.1.server ≡ calls ++ status_call id ∷ []
  unfolding status_of_job
  after_logs-calls id read none res calls made h = cc
  after_logs-calls id read (some ((n, e), s, w)) res calls made h =
      let answer = status_of_job (recorder a) id s in
      let made_of = with_status (recorder a) logs (follow_error id e) answer (add_64 read n) w in
      let state =
        with_status-state (recorder a) logs (follow_error id e) answer (add_64 read n) w in
      let q : some made_of ≡ some res = h in
      let p : made_of ≡ res = cc in
      ap (λ (r : Followed (List Call) W). r.1.server) (sym p)
      ∙ state.2
      ∙ ap (λ (t : List Call). t ++ status_call id ∷ []) (made n e s w refl)

-- The calls of Follow.
abbrev follow_calls : Bool → String → ℕ → List Call
follow_calls true id offset = follow_call id offset ∷ status_call id ∷ []
follow_calls false id offset = []

follow_job-calls :
    {W : Type 0} (a : Answers) (logs : Option (Sink W)) (id : String) (f : Following (List Call) W)
    (res : Followed (List Call) W)
    → follow_job (recorder a) logs id f ≡ some res
    → res.1.server ≡ f.server ++ follow_calls (is_some logs) id f.read_logs
unfolding follow_job follow_logs
follow_job-calls a none id f res h =
    let p : f ≡ res.1 = ground arith in rw (← p) (sym (append-nil f.server))
follow_job-calls a (some sink) id f res h =
    let asked = f.server ++ follow_call id f.read_logs ∷ [] in
    let answer : Result (List Received) × List Call =
      (a.follow_logs id f.read_logs f.server, asked) in
    after_logs-calls a (some sink) id f.read_logs
      (and_receive (recorder a) sink id f.read_logs answer f.sink) res asked
      (λ n e s w q. and_receive-calls a (some sink) sink id f.read_logs answer f.sink n e s w q) h
    ∙ append_assoc f.server (follow_call id f.read_logs ∷ []) (status_call id ∷ [])

closing-calls :
    {W : Type 0} (a : Answers) (logs : Option (Sink W)) (id : String)
    (got : Option (Followed (List Call) W)) (res : Followed (List Call) W)
    → closing (recorder a) logs id got ≡ some res
    → (r : Followed (List Call) W) × (got ≡ some r)
      × (res.1.server ≡ r.1.server ++ close_call id ∷ [])
unfolding close_job
closing-calls a logs id none res h = cc
closing-calls a logs id (some (r, f)) res h = ((r, f), refl, ground arith)

append-job_calls :
    (calls : List Call) (run : Call) (with_logs : Bool) (id : String) (offset : ℕ)
    → ((calls ++ run ∷ []) ++ follow_calls with_logs id offset) ++ close_call id ∷ []
      ≡ calls ++ run ∷ job_calls with_logs id offset
append-job_calls [] run true id offset = refl
append-job_calls [] run false id offset = refl
append-job_calls (c ∷ calls) run with_logs id offset =
    ap (λ (t : List Call). c ∷ t) (append-job_calls calls run with_logs id offset)

run_job-recorder :
    (a : Answers) (r : ClientRequest) (calls : List Call) (answer : Result (Unit {0}))
    → a.run (to_proto r) calls ≡ answer
    → run_job (recorder a) r calls ≡ (
      wrapping "running run request for job %q: %w" (r.id ∷ []) answer,
      calls ++ run_call (to_proto r) ∷ [],
    )
unfolding run_job
run_job-recorder a r calls answer h = rw h refl

module _ {W : Type 0} (a : Answers) (logs : Option (Sink W)) where
  -- Whatever the service answers, RunAndFollow that returns has made these calls, in this order: Run, and
  -- none behind it if it fails; else with a writer FollowLogs from what was read before, and Status,
  -- and in any case Close last.
  pub run_and_follow-calls :
      (r : ClientRequest) (f : Following (List Call) W) (res : Followed (List Call) W)
      → run_and_follow (recorder a) logs r f ≡ some res
      → res.1.server
        ≡ f.server
          ++ run_call (to_proto r)
            ∷ (if is_ok (a.run (to_proto r) f.server)
                then job_calls (is_some logs) r.id f.read_logs
                else [])
  unfolding run_and_follow
  run_and_follow-calls r f res h = elim (Result-cases (a.run (to_proto r) f.server)) [
    | inr (e, q) ↦
        let failed = run_job-recorder a r f.server (err e) q in
        let p = sym (ap (λ x. and_follow (recorder a) logs r.id x f) failed) ∙ h in
        rw q (ground arith)
    | inl (u, q) ↦
        let fine = run_job-recorder a r f.server (ok u) q in
        let g : Following (List Call) W = record f {
          server = f.server ++ run_call (to_proto r) ∷ [];
        } in
        let closed : closing (recorder a) logs r.id (follow_job (recorder a) logs r.id g)
            ≡ some res =
          sym (ap (λ x. and_follow (recorder a) logs r.id x f) fine) ∙ h in
        let (last, followed, calls) = closing-calls a logs r.id _ res closed in
        let before = follow_job-calls a logs r.id g last followed in
        rw q (
          calls
          ∙ ap (λ (t : List Call). t ++ close_call r.id ∷ []) before
          ∙ append-job_calls f.server (run_call (to_proto r)) (is_some logs) r.id f.read_logs)
  ]
