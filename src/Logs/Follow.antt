-- ===== src/Logs/Follow.antt =====
-- Streamer.Follow: bufio.Scanner with its lines, and the loop that writes them.
use Prim.Native.Char.{Char, code}
use step_runner.Common.{
  ◌==◌, leb, if◌then◌else◌, ℕ, Bool, true, false, Option, none, some, List, [], ◌∷◌, ◌++◌, length,
  Error, Result, ok, err, foreign, wrapping,
}
use step_runner.Logs.Streamer.{Read, chunk, eof, failed}

-- bufio.MaxScanTokenSize
abbrev pub max_line : ℕ
max_line = 65536

abbrev pub push_char : Char → List (List Char) × List Char → List (List Char) × List Char
push_char c ([], rest) = ([], c ∷ rest)
push_char c (line ∷ lines, rest) = ((c ∷ line) ∷ lines, rest)

abbrev pub add_char : Bool → Char → List (List Char) × List Char → List (List Char) × List Char
add_char true c (lines, rest) = ([] ∷ lines, rest)
add_char false c split = push_char c split

-- The lines that a text has in full, without their ends, and what is behind the last end of line.
unfoldable pub split_lines : List Char → List (List Char) × List Char
split_lines [] = ([], [])
split_lines (c ∷ s) = add_char (code c == 10) c (split_lines s)

-- dropCR
unfoldable pub drop_cr : List Char → List Char
drop_cr [] = []
drop_cr (c ∷ []) = if code c == 13 then [] else c ∷ []
drop_cr (c ∷ d ∷ s) = c ∷ drop_cr (d ∷ s)

-- The writer, and whether the context is done.
pub record Writer (W : Type 0) : Type 0 where
  pub ctx_err : W → Option Error
  pub write_to : List Char → W → Result (Unit {0}) × W

abbrev end_of_line : List Char
end_of_line = "\n" ∷ []

abbrev pub last_line : List Char → List (List Char)
last_line [] = []
last_line (c ∷ rest) = (c ∷ rest) ∷ []

module _ {W : Type 0} (wr : Writer W) where
  -- a call of the writer, with its error wrapped, and what comes behind it
  abbrev and_write : Result (Unit {0}) × W → (W → Result (Unit {0}) × W) → Result (Unit {0}) × W
  and_write (err e, w) next = (wrapping "streaming logs: %w" [] (err e), w)
  and_write (ok u, w) next = next w

  unfoldable pub write_data : List Char → W → Result (Unit {0}) × W
  write_data [] w = (ok tt, w)
  write_data (c ∷ s) w =
      and_write (wr.write_to (c ∷ s) w)
        λ w'. and_write (wr.write_to end_of_line w') λ w''. (ok tt, w'')

  -- the body of the loop for one token
  unfoldable pub write_token : List Char → W → Result (Unit {0}) × W
  unfolding drop_cr write_data
  write_token line w = elim (wr.ctx_err w) [
    | some e ↦ (err e, w)
    | none ↦ write_data (drop_cr line) w
  ]

  abbrev and_lines : Result (Unit {0}) × W → (W → Result (Unit {0}) × W) → Result (Unit {0}) × W
  and_lines (err e, w) next = (err e, w)
  and_lines (ok u, w) next = next w

  -- the loop over the tokens that the scanner has found
  unfoldable pub write_lines : List (List Char) → W → Result (Unit {0}) × W
  unfolding write_token
  write_lines [] w = (ok tt, w)
  write_lines (line ∷ lines) w = and_lines (write_token line w) (write_lines lines)

  abbrev and_follow :
      Result (Unit {0}) × W → (W → Option (Result (Unit {0}) × W)) → Option (Result (Unit {0}) × W)
  and_follow (err e, w) next = some (err e, w)
  and_follow (ok u, w) next = next w

  -- Follow behind the seek, over what the reader returns, with what the scanner has buffered; none is a
  -- wait for more. A buffer that is full and has no end of line is bufio.ErrTooLong.
  unfoldable pub follow : List Char → List Read → W → Option (Result (Unit {0}) × W)
  unfolding write_lines split_lines
  follow buffer [] w = none
  follow buffer (chunk s ∷ reads) w =
      let split = split_lines (buffer ++ s) in
      and_follow (write_lines split.0 w) λ w'.
        if leb max_line (length split.1)
        then some (err (foreign "bufio.Scanner: token too long"), w')
        else follow split.1 reads w'
  follow buffer (eof ∷ reads) w = some (write_lines (last_line buffer) w)
  follow buffer (failed e ∷ reads) w =
      and_follow (write_lines (last_line buffer) w) λ w'. some (err e, w')
