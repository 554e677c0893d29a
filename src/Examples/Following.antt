-- ===== src/Examples/Following.antt =====
-- Logs that are followed: the theorems at concrete inputs.
use Prim.Native.Char.{Char}
use step_runner.Common.{
  ◌≡◌, ℕ, refl, true, none, some, List, [], ◌∷◌, ◌++◌, chars, length, drop, ◌-◌, suc, ok, arith,
}
use step_runner.Logs.Streamer.{
  Streamer, new_streamer, write, close_stream, Read, chunk, eof, read_at, Follows, wrote, closes,
  reads, ends,
}
use step_runner.Logs.Follow.{
  Writer, write_lines, write_token, write_data, split_lines, drop_cr, follow,
}
use step_runner.Logs.Lines.{lines_of, is_short}
use step_runner.Logs.Streaming.{reads_of, Follows-follow, close_stream-follow}

-- A writer that keeps what it is given.
abbrev keeper : Writer (List Char)
keeper = record { ctx_err = λ w. none; write_to = λ text w. (ok tt, w ++ text) }

abbrev pub empty_log : Streamer
empty_log = new_streamer []

-- A line is written in two parts, and is read between them.
abbrev pub first_part : Streamer
first_part = (write (chars "ab") empty_log).1

abbrev pub second_part : Streamer
second_part = (write (chars "c\n\nd") first_part).1

abbrev pub closed_log : Streamer
closed_log = close_stream second_part

abbrev pub two_reads : List Read
two_reads = chunk (chars "ab") ∷ chunk (chars "c\n\nd") ∷ eof ∷ []

pub followed : Follows empty_log 0 two_reads closed_log
unfolding write close_stream step_runner.Logs.Streamer.stop_stream read_at
followed = wrote (chars "ab") (
    reads 8 (chars "ab") refl
      (wrote (chars "c\n\nd") (reads 8 (chars "c\n\nd") refl (closes (ends 8 refl)))))

written : follow keeper [] two_reads [] ≡ some (ok tt, chars "abc\nd\n")
unfolding follow write_lines write_token write_data split_lines drop_cr
written = refl

pub closed_log-short : is_short (drop 0 closed_log.content) ≡ true
unfolding write close_stream step_runner.Logs.Streamer.stop_stream split_lines
closed_log-short = refl

Follows-follow_example :
    follow keeper [] two_reads []
    ≡ some (write_lines keeper (lines_of (drop 0 closed_log.content)) [])
Follows-follow_example =
    Follows-follow keeper empty_log closed_log 0 two_reads [] followed refl (omega arith)
      closed_log-short

-- The buffer shrinks while the log is read.
abbrev sizes : ℕ → ℕ
sizes pos = 9 - pos

abbrev short_log : Streamer
short_log = new_streamer (chars "ab\ncd\n")

short_log-short : is_short (drop 3 short_log.content) ≡ true
unfolding split_lines
short_log-short = refl

close_stream-follow_example :
    follow keeper []
      (reads_of (suc (length short_log.content - 3)) sizes 3 (close_stream short_log))
      []
    ≡ some (write_lines keeper (lines_of (drop 3 short_log.content)) [])
close_stream-follow_example =
    close_stream-follow keeper short_log 3 sizes [] (omega arith) short_log-short
