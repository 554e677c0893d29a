-- ===== src/Service/Following.antt =====
-- pkg/api/service/service.go: the handler FollowLogs, and Job.FollowLogs behind it.
use Prim.Native.Char.{Char}
use step_runner.Common.{
  ℕ, String, Option, none, some, List, [], ◌∷◌, Error, errorf, Result, err, wrapping,
}
use step_runner.Logs.Streamer.{Read}
use step_runner.Logs.Follow.{Writer, follow}
use step_runner.Service.SyncMap.{get}
use step_runner.Service.Handlers.{Service}

-- StepRunner_FollowLogsServer: the context of the call, and Send with the data of a message.
pub record Stream (W : Type 0) : Type 0 where
  pub ctx_err : W → Option Error
  pub send : List Char → W → Result (Unit {0}) × W

-- toIOWriter, of the function that sends what it is given
abbrev pub to_io_writer : {W : Type 0} → Stream W → Writer W
to_io_writer stream = record { ctx_err = stream.ctx_err; write_to = stream.send }

-- Job.FollowLogs, behind the opening and the seek, over what the reader of the log returns
unfoldable pub job_follow_logs :
    {W : Type 0} → String → Writer W → List Read → W → Option (Result (Unit {0}) × W)
unfolding follow
job_follow_logs id wr reads w = elim (follow wr [] reads w) [
  | none ↦ none
  | some (r, w') ↦ some (wrapping "following logs for job %q: %w" (id ∷ []) r, w')
]

-- FollowLogs, where each job has what the reader of its log returns
unfoldable pub service_follow_logs :
    {W : Type 0}
    → Service
    → String
    → Stream W
    → (ℕ → List Read)
    → W
    → Option (Result (Unit {0}) × W)
unfolding job_follow_logs
service_follow_logs sv id stream reads w = elim (get id sv.jobs) [
  | none ↦ some (err (errorf "no job with id %q" (id ∷ [])), w)
  | some a ↦ job_follow_logs id (to_io_writer stream) (reads a) w
]
