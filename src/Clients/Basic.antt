-- ===== src/Clients/Basic.antt =====
-- pkg/api/client/client.go and basic/client.go: the client that makes one call of the service for each of
-- its own. A number of type int64 is its 64-bit word.
use Prim.Native.Char.{Char}
use step_runner.Common.{
  ℕ, ◌+◌, ◌-◌, ◌%◌, ◌^◌, String, Option, none, some, List, [], ◌∷◌, Map, Error, errorf, panic,
  wrap_error, Result, ok, err, wrapping, ◌>>=◌,
}
use step_runner.Proto.{Status}
use step_runner.Jobs.Opening.{StatusMessage}
use step_runner.Service.Variables.{Message}
use step_runner.Service.Handlers.{RunRequest}

-- client.RunRequest; a client.Variable has the fields of the message
pub record ClientRequest : Type 0 where
  pub id : String
  pub work_dir : String
  pub env : Map String
  pub steps : String
  pub variables : List Message
  pub build_dir : String

-- time.Time: the zero value, what AsTime makes of no timestamp, or a time
pub data Time : Type 0 where
  zero_time epoch : Time
  at : ℕ → Time

-- client.Status
pub record ClientStatus : Type 0 where
  pub id : String
  pub message : String
  pub state : Status
  pub start_time : Time
  pub end_time : Time

abbrev pub empty_status : ClientStatus
empty_status = record {
  id = "";
  message = "";
  state = Status.unspecified;
  start_time = zero_time;
  end_time = zero_time;
}

-- toProto
unfoldable pub to_proto : ClientRequest → RunRequest
to_proto r = record {
  id = r.id;
  work_dir = r.work_dir;
  env = r.env;
  job = some (record { variables = r.variables; build_dir = r.work_dir });
  steps = r.steps;
}

abbrev start_of : Option ℕ → Time
start_of none = epoch
start_of (some t) = at t

abbrev end_of : Option ℕ → Time
end_of none = zero_time
end_of (some t) = at t

-- the function inside fromProto
abbrev pub from_status : StatusMessage → ClientStatus
from_status st = record {
  id = st.id;
  message = st.message;
  state = st.status;
  start_time = start_of st.start_time;
  end_time = end_of st.end_time;
}

-- fromProto: a message that is nil is a nil pointer
unfoldable pub from_proto : List (Option StatusMessage) → Result (List ClientStatus)
from_proto [] = ok []
from_proto (none ∷ statuses) = err (panic "invalid memory address or nil pointer dereference")
from_proto (some st ∷ statuses) = from_proto statuses >>= λ rest. ok (from_status st ∷ rest)

-- the element at 0
unfoldable pub first_status : List ClientStatus → Result ClientStatus
first_status [] = err (panic "index out of range [0] with length 0")
first_status (st ∷ statuses) = ok st

-- What Recv of the stream of logs returns: the data of a message, io.EOF, or an error.
pub data Received : Type 0 where
  message : List Char → Received
  stream_end : Received
  broken : Error → Received

-- proto.StepRunnerClient: the calls of the service, each with what it changes there.
pub record Server (S : Type 0) : Type 0 where
  pub run : RunRequest → S → Result (Unit {0}) × S
  pub close : String → S → Result (Unit {0}) × S
  pub status : String → S → Result (List (Option StatusMessage)) × S
  pub follow_logs : String → ℕ → S → Result (List Received) × S

-- An io.Writer, which returns how many bytes it took, and the context of the call.
pub record Sink (W : Type 0) : Type 0 where
  pub ctx_err : W → Option Error
  pub write_to : List Char → W → (ℕ × Option Error) × W

abbrev pub add_64 : ℕ → ℕ → ℕ
add_64 a b = (a + b) % 2 ^ 64

abbrev pub minus_one : ℕ
minus_one = 2 ^ 64 - 1

module _ {W : Type 0} (sink : Sink W) where
  -- what an iteration does with the context, before it receives
  abbrev unless_done : W → Option ((ℕ × Option Error) × W) → Option ((ℕ × Option Error) × W)
  unless_done w next = elim (sink.ctx_err w) [
    | some e ↦ some ((minus_one, some e), w)
    | none ↦ next
  ]

  -- what an iteration does after it has written a message
  abbrev count_written :
      ℕ
      → (ℕ × Option Error) × W
      → (ℕ → W → Option ((ℕ × Option Error) × W))
      → Option ((ℕ × Option Error) × W)
  count_written written ((n, some e), w) next =
      some ((add_64 written n, some (wrap_error "writing to log sink: %w" [] e)), w)
  count_written written ((n, none), w) next = next (add_64 written n) w

  -- the loop of FollowLogs, over what the stream holds; none is a wait for more
  unfoldable pub receive : ℕ → List Received → W → Option ((ℕ × Option Error) × W)
  receive written [] w = none
  receive written (message s ∷ rs) w =
      unless_done w
        (count_written written (sink.write_to s w) (λ written' w'. receive written' rs w'))
  receive written (stream_end ∷ rs) w = unless_done w (some ((written, none), w))
  receive written (broken e ∷ rs) w =
      unless_done w (some ((written, some (wrap_error "following logs: %w" [] e)), w))

module _ {S : Type 0} (server : Server S) where
  -- Run and Close
  unfoldable pub run_job : ClientRequest → S → Result (Unit {0}) × S
  unfolding to_proto
  run_job r s =
      let (answer, s') = server.run (to_proto r) s in
      (wrapping "running run request for job %q: %w" (r.id ∷ []) answer, s')

  unfoldable pub close_job : String → S → Result (Unit {0}) × S
  close_job id s =
      let (answer, s') = server.close id s in (wrapping "closing job %q: %w" (id ∷ []) answer, s')

  -- Status
  unfoldable pub status_of_job : String → S → Result ClientStatus × S
  unfolding from_proto first_status
  status_of_job id s =
      let (answer, s') = server.status id s in
      (
        wrapping "getting status for job %q: %w" (id ∷ []) answer >>= λ statuses.
            from_proto statuses >>= first_status,
        s',
      )

  -- ListJobs
  unfoldable pub list_jobs : S → Result (List ClientStatus) × S
  unfolding from_proto
  list_jobs s =
      let (answer, s') = server.status "" s in
      (wrapping "listing jobs: %w" [] answer >>= from_proto, s')

  module _ {W : Type 0} where
    -- the loop over the stream, if the call for it did not fail
    abbrev pub and_receive :
        Sink W → String → ℕ → Result (List Received) × S → W → Option ((ℕ × Option Error) × S × W)
    and_receive sink id offset (err e, s) w =
        some ((minus_one, some (wrap_error "following logs for job %q: %w" (id ∷ []) e)), s, w)
    and_receive sink id offset (ok stream, s) w = elim (receive sink offset stream w) [
      | none ↦ none
      | some (r, w') ↦ some (r, s, w')
    ]

    -- FollowLogs, of a writer that may be nil
    unfoldable pub follow_logs :
        Option (Sink W) → String → ℕ → S → W → Option ((ℕ × Option Error) × S × W)
    unfolding receive
    follow_logs none id offset s w = some ((minus_one, some (errorf "nil io.Writer" [])), s, w)
    follow_logs (some sink) id offset s w =
        and_receive sink id offset (server.follow_logs id offset s) w
