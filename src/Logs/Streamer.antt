-- ===== src/Logs/Streamer.antt =====
-- streamer/file/file.go: Write, Stop and Close, and the reader that Follow scans.
use Prim.Native.Char.{Char}
use step_runner.Common.{
  if◌then◌else◌, ℕ, suc, ◌+◌, Bool, true, false, Option, none, some, List, [], ◌∷◌, ◌++◌, length,
  take, drop, Error, Result, ok, err, errorf, ◌≡◌,
}

-- The log file, with the position that the next Write begins at.
pub record Streamer : Type 0 where
  pub content : List Char
  pub position : ℕ
  pub stop : Bool
  pub closed : Bool

-- New: a file that is opened neither to append nor with truncation, so that it keeps what it holds and
-- is written to from its beginning
abbrev pub new_streamer : List Char → Streamer
new_streamer content = record { content = content; position = 0; stop = false; closed = false }

-- What a file holds after a write at a position.
abbrev pub write_at : ℕ → List Char → List Char → List Char
write_at position p content = take position content ++ (p ++ drop (position + length p) content)

-- Write, Stop and Close. A write to a closed file fails.
unfoldable pub write : List Char → Streamer → Result ℕ × Streamer
write p st = if st.closed then (err (errorf "file already closed" []), st) else (
  ok (length p),
  record st { content = write_at st.position p st.content; position = st.position + length p },
)

unfoldable pub stop_stream : Streamer → Streamer
stop_stream st = record st { stop = true }

unfoldable pub close_stream : Streamer → Streamer
unfolding stop_stream
close_stream st = record (stop_stream st) { closed = true }

-- What the reader returns.
pub data Read : Type 0 where
  chunk : List Char → Read
  eof : Read
  failed : Error → Read

abbrev pub read_content : Bool → List Char → Option Read
read_content stop (c ∷ s) = some (chunk (c ∷ s))
read_content true [] = some eof
read_content false [] = none

-- One turn of the reader's loop, for a buffer of `n` bytes and the reader's position; none is a wait.
unfoldable pub read_at : Option Error → ℕ → ℕ → Streamer → Option Read
read_at (some e) n pos st = some (failed e)
read_at none n pos st = read_content st.stop (take n (drop pos st.content))

-- What the reader returns one time after another while others write and stop: the state in which Follow
-- begins, its position, what the reader returns up to the end of the file, and the state by then.
pub data Follows : Streamer → ℕ → List Read → Streamer → Type 0 where
  wrote :
      {st fin : Streamer} {pos : ℕ} {rs : List Read} (p : List Char)
      → Follows (write p st).1 pos rs fin
      → Follows st pos rs fin
  stopped :
      {st fin : Streamer} {pos : ℕ} {rs : List Read}
      → Follows (stop_stream st) pos rs fin
      → Follows st pos rs fin
  closes :
      {st fin : Streamer} {pos : ℕ} {rs : List Read}
      → Follows (close_stream st) pos rs fin
      → Follows st pos rs fin
  reads :
      {st fin : Streamer} {pos : ℕ} {rs : List Read} (n : ℕ) (s : List Char)
      → read_at none n pos st ≡ some (chunk s)
      → Follows st (pos + length s) rs fin
      → Follows st pos (chunk s ∷ rs) fin
  ends :
      {st : Streamer} {pos : ℕ} (n : ℕ)
      → read_at none (suc n) pos st ≡ some eof
      → Follows st pos (eof ∷ []) st
