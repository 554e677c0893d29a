-- ===== src/Clients/Followed.antt =====
-- The logs of a job, from its log file through the service to the writer of a client.
use Prim.Native.Char.{Char}
use mathlib.Core.List.{append_assoc, append-nil}
use step_runner.Common.{
  ℕ, ◌+◌, ◌%◌, ◌^◌, ◌≤◌, ◌<◌, ◌++◌, length, length-append, drop, String, ◌≡◌, refl, sym, ap, ◌∙◌,
  true, none, some, List, [], ◌∷◌, map, Result, ok, arith,
}
use step_runner.Logs.Streamer.{Streamer, Read, Follows}
use step_runner.Logs.Follow.{Writer, drop_cr, write_data, write_token, write_lines}
use step_runner.Logs.Lines.{lines_of, is_short}
use step_runner.Logs.Streaming.{is_at_end, Follows-follow}
use step_runner.Service.SyncMap.{get}
use step_runner.Service.Handlers.{Service}
use step_runner.Service.Following.{Stream, to_io_writer, job_follow_logs, service_follow_logs}
use step_runner.Clients.Basic.{Received, message, stream_end, Sink, add_64, receive}

-- A stream on which every message is sent, behind those that were sent before.
pub record Sends (W : Type 0) : Type 0 where
  pub stream : Stream W
  pub sent : W → List (List Char)
  pub never_done : (w : W) → stream.ctx_err w ≡ none
  pub send_fine : (p : List Char) (w : W) → (stream.send p w).0 ≡ ok tt
  pub sent-send : (p : List Char) (w : W) → sent (stream.send p w).1 ≡ sent w ++ p ∷ []

-- A writer that takes all that it is given, in a call that is never cancelled.
pub record TakesAll (W : Type 0) : Type 0 where
  pub sink : Sink W
  pub content : W → List Char
  pub never_done : (w : W) → sink.ctx_err w ≡ none
  pub takes : (p : List Char) (w : W) → (sink.write_to p w).0 ≡ (length p, none)
  pub content-write_to : (p : List Char) (w : W) → content (sink.write_to p w).1 ≡ content w ++ p

abbrev pub flat : List (List Char) → List Char
flat [] = []
flat (p ∷ ps) = p ++ flat ps

abbrev pieces_of : List Char → List (List Char)
pieces_of [] = []
pieces_of (c ∷ s) = (c ∷ s) ∷ ("\n" ∷ []) ∷ []

-- The messages that lines are sent in, and the text that they make: of each line that is not empty the
-- characters, without a carriage return at its end, and an end of line.
pub pieces : List (List Char) → List (List Char)
unfolding drop_cr
pieces [] = []
pieces (line ∷ lines) = pieces_of (drop_cr line) ++ pieces lines

abbrev pub text_of : List (List Char) → List Char
text_of lines = flat (pieces lines)

write_lines-cons :
    {W : Type 0} (wr : Writer W) (line : List Char) (lines : List (List Char)) (w w' : W)
    → wr.ctx_err w ≡ none
    → write_data wr (drop_cr line) w ≡ (ok tt, w')
    → write_lines wr (line ∷ lines) w ≡ write_lines wr lines w'
unfolding write_lines write_token
write_lines-cons wr line lines w w' never done = ground arith

module _ {W : Type 0} (sends : Sends W) where
  abbrev Sent : List (List Char) → W → Result (Unit {0}) × W → Type 0
  Sent ps w r = (r.0 ≡ ok tt) × (sends.sent r.1 ≡ sends.sent w ++ ps)

  write_data-Sent :
      (s : List Char) (w : W) → Sent (pieces_of s) w (write_data (to_io_writer sends.stream) s w)
  unfolding write_data
  write_data-Sent [] w = (refl, sym (append-nil (sends.sent w)))
  write_data-Sent (c ∷ s) w =
      let w₁ = (sends.stream.send (c ∷ s) w).1 in
      let newline : List Char = "\n" ∷ [] in
      rw (sends.send_fine (c ∷ s) w, sends.send_fine newline w₁)
        (
          refl,
          sends.sent-send newline w₁
              ∙ ap (λ (t : List (List Char)). t ++ newline ∷ []) (sends.sent-send (c ∷ s) w)
              ∙ append_assoc (sends.sent w) ((c ∷ s) ∷ []) (newline ∷ []),
        )

  write_lines-Sent :
      (lines : List (List Char)) (w : W)
      → Sent (pieces lines) w (write_lines (to_io_writer sends.stream) lines w)
  unfolding write_lines pieces
  write_lines-Sent [] w = (refl, sym (append-nil (sends.sent w)))
  write_lines-Sent (line ∷ lines) w =
      let first = write_data-Sent (drop_cr line) w in
      let w₁ = (write_data (to_io_writer sends.stream) (drop_cr line) w).1 in
      let rest = write_lines-Sent lines w₁ in
      let one =
        write_lines-cons (to_io_writer sends.stream) line lines w w₁ (sends.never_done w)
          (ap (λ r. (r, w₁)) first.0) in
      rw one (
        rest.0,
        rest.1
            ∙ ap (λ (t : List (List Char)). t ++ pieces lines) first.1
            ∙ append_assoc (sends.sent w) (pieces_of (drop_cr line)) (pieces lines),
      )

receive-stream_end :
    {W : Type 0} (sink : Sink W) (written : ℕ) (w : W)
    → sink.ctx_err w ≡ none
    → receive sink written (stream_end ∷ []) w ≡ some ((written, none), w)
unfolding receive
receive-stream_end sink written w h = ground arith

receive-message :
    {W : Type 0} (sink : Sink W) (written : ℕ) (p : List Char) (rs : List Received) (w : W)
    → sink.ctx_err w ≡ none
    → (sink.write_to p w).0 ≡ (length p, none)
    → receive sink written (message p ∷ rs) w
      ≡ receive sink (add_64 written (length p)) rs (sink.write_to p w).1
unfolding receive
receive-message sink written p rs w h q = ground arith

module _ {W : Type 0} (all : TakesAll W) where
  -- The client has written the messages to its writer, one behind the other, and counts them.
  pub receive-flat :
      (written : ℕ) (ps : List (List Char)) (w : W)
      → written < 2 ^ 64
      → (w' : W) × (receive all.sink written (map message ps ++ stream_end ∷ []) w
          ≡ some (((written + length (flat ps)) % 2 ^ 64, none), w'))
        × (all.content w' ≡ all.content w ++ flat ps)
  receive-flat written [] w h =
      let word : (written + length (flat [])) % 2 ^ 64 ≡ written = omega arith in
      (
        w,
        rw word (receive-stream_end all.sink written w (all.never_done w)),
        sym (append-nil (all.content w)),
      )
  receive-flat written (p ∷ ps) w h =
      let w₁ = (all.sink.write_to p w).1 in
      let next = add_64 written (length p) in
      let (w', done, content) = receive-flat next ps w₁ (omega arith) in
      let count : (next + length (flat ps)) % 2 ^ 64 ≡ (written + length (flat (p ∷ ps))) % 2 ^ 64 =
        omega (arith, length-append p (flat ps)) in
      (
        w',
        receive-message all.sink written p (map message ps ++ stream_end ∷ []) w (all.never_done w)
              (all.takes p w)
            ∙ (rw count at done),
        content
            ∙ ap (λ (t : List Char). t ++ flat ps) (all.content-write_to p w)
            ∙ append_assoc (all.content w) p (flat ps),
      )

module _ {V W : Type 0} (sends : Sends V) (all : TakesAll W) where
  -- However the log of a job is written, and however it is read meanwhile: FollowLogs of the service
  -- ends without an error, and a client that then receives what was sent has behind what its
  -- writer held the lines that the log then has behind the offset, each with an end of line and
  -- without a carriage return, the empty ones left out; and it has counted their bytes, from the
  -- offset on, as an int64. This is if the service has a job of the name and the log is that job's,
  -- nothing was sent before, each line is shorter than the scanner's buffer, the offset is not behind
  -- the log's end at the start, the next write begins at that end, as it does in a log that was
  -- created empty, all messages can be sent, and the writer takes them all.
  pub service_follow_logs-receive :
      (sv : Service) (id : String) (a : ℕ) (logs : ℕ → Streamer) (fin : Streamer) (offset : ℕ)
      (reads : ℕ → List Read) (v : V) (w : W)
      → get id sv.jobs ≡ some a
      → Follows (logs a) offset (reads a) fin
      → is_at_end (logs a) ≡ true
      → offset ≤ length ((logs a).content)
      → offset < 2 ^ 64
      → is_short (drop offset fin.content) ≡ true
      → sends.sent v ≡ []
      → (v' : V) × (w' : W) × (service_follow_logs sv id sends.stream reads v ≡ some (ok tt, v'))
        × (receive all.sink offset (map message (sends.sent v') ++ stream_end ∷ []) w
            ≡ some (
              ((offset + length (text_of (lines_of (drop offset fin.content)))) % 2 ^ 64, none),
              w',
            ))
        × (all.content w' ≡ all.content w ++ text_of (lines_of (drop offset fin.content)))
  unfolding service_follow_logs job_follow_logs
  service_follow_logs-receive sv id a logs fin offset reads v w found f end bound word short fresh =
      let lines = lines_of (drop offset fin.content) in
      let wr = to_io_writer sends.stream in
      let followed = Follows-follow wr (logs a) fin offset (reads a) v f end bound short in
      let written = write_lines-Sent sends lines v in
      let v' = (write_lines wr lines v).1 in
      let sent : sends.sent v' ≡ pieces lines =
        written.1 ∙ ap (λ (t : List (List Char)). t ++ pieces lines) fresh in
      let (w', received, content) = receive-flat all offset (pieces lines) w word in
      let result : write_lines wr lines v ≡ (ok tt, v') = ap (λ r. (r, v')) written.0 in
      (v', w', ground arith, rw sent received, content)
