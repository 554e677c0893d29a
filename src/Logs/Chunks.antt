-- ===== src/Logs/Chunks.antt =====
-- What Follow writes does not depend on how the file is read.
use Prim.Native.Char.{Char}
use mathlib.Core.List.{append_assoc, append-nil}
use step_runner.Common.{
  ◌≡◌, ap, sym, ◌∙◌, Bool, true, false, some, List, [], ◌∷◌, ◌++◌, Error, ok, err, arith, inl, inr,
  Result-cases,
}
use step_runner.Logs.Streamer.{Read, chunk, eof, failed}
use step_runner.Logs.Follow.{split_lines, Writer, write_token, write_lines, follow}
use step_runner.Logs.Lines.{
  lines_of, is_short, is_open, split_lines-is_open, lines_of-append, lines_of-open, is_short-rest,
  short_buffer,
}

-- The text that is read, up to the end of the file or an error.
unfoldable pub content_of : List Read → List Char
content_of [] = []
content_of (chunk s ∷ rs) = s ++ content_of rs
content_of (eof ∷ rs) = []
content_of (failed e ∷ rs) = []

unfoldable pub ends_at_eof : List Read → Bool
ends_at_eof [] = false
ends_at_eof (chunk s ∷ rs) = ends_at_eof rs
ends_at_eof (eof ∷ rs) = true
ends_at_eof (failed e ∷ rs) = false

module _ {W : Type 0} (wr : Writer W) where
  -- The tokens of one text after those of another.
  write_lines-append :
      (xs ys : List (List Char)) (w w1 : W)
      → write_lines wr xs w ≡ (ok tt, w1)
      → write_lines wr (xs ++ ys) w ≡ write_lines wr ys w1
  unfolding write_lines
  write_lines-append [] ys w w1 h = ground arith
  write_lines-append (x ∷ xs) ys w w1 h = elim (Result-cases (write_token wr x w).0) [
    | inl (u, q) ↦
        let rest = write_lines-append xs ys (write_token wr x w).1 w1 (ground arith) in ground arith
    | inr (e, q) ↦ absurd (ground arith)
  ]

  write_lines-err :
      (xs ys : List (List Char)) (w w1 : W) (e : Error)
      → write_lines wr xs w ≡ (err e, w1)
      → write_lines wr (xs ++ ys) w ≡ (err e, w1)
  unfolding write_lines
  write_lines-err [] ys w w1 e h = absurd (ground arith)
  write_lines-err (x ∷ xs) ys w w1 e h = elim (Result-cases (write_token wr x w).0) [
    | inl (u, q) ↦
        let rest = write_lines-err xs ys (write_token wr x w).1 w1 e (ground arith) in ground arith
    | inr (e', q) ↦ ground arith
  ]

  -- Behind an open buffer, Follow writes the lines of all that is read up to the end of the file.
  pub follow_behind :
      (buffer : List Char) (rs : List Read) (w : W)
      → is_open buffer ≡ true
      → ends_at_eof rs ≡ true
      → is_short (buffer ++ content_of rs) ≡ true
      → follow wr buffer rs w ≡ some (write_lines wr (lines_of (buffer ++ content_of rs)) w)
  unfolding follow content_of ends_at_eof
  follow_behind buffer [] w open_ ending short = cc
  follow_behind buffer (failed e ∷ rs) w open_ ending short = cc
  follow_behind buffer (eof ∷ rs) w open_ ending short =
      ap (λ t. some (write_lines wr t w))
        (sym (ap lines_of (append-nil buffer) ∙ lines_of-open buffer open_))
  follow_behind buffer (chunk s ∷ rs) w open_ ending short =
      let r = (split_lines (buffer ++ s)).1 in
      let ls = (split_lines (buffer ++ s)).0 in
      let whole = append_assoc buffer s (content_of rs) in
      let short' : is_short ((buffer ++ s) ++ content_of rs) ≡ true = rw whole short in
      let short_rest = is_short-rest (buffer ++ s) (content_of rs) short' in
      let open_rest = split_lines-is_open (buffer ++ s) in
      let room = short_buffer r (content_of rs) open_rest short_rest in
      let lines : lines_of (buffer ++ (s ++ content_of rs)) ≡ ls ++ lines_of (r ++ content_of rs) =
        ap lines_of (sym whole) ∙ lines_of-append (buffer ++ s) (content_of rs) in
      let done = write_lines wr ls w in
      elim (Result-cases (done.0)) [
        | inl (u, q) ↦
            let rest = follow_behind r rs (done.1) open_rest ending short_rest in
            let more =
              write_lines-append ls (lines_of (r ++ content_of rs)) w (done.1)
                (ground (arith, q)) in
            let goal : follow wr buffer (chunk s ∷ rs) w
                ≡ some (write_lines wr (ls ++ lines_of (r ++ content_of rs)) w) =
              ground (arith, q, rest, more, room) in
            rw lines goal
        | inr (e, q) ↦
            let more =
              write_lines-err ls (lines_of (r ++ content_of rs)) w (done.1) e (ground (arith, q)) in
            let goal : follow wr buffer (chunk s ∷ rs) w
                ≡ some (write_lines wr (ls ++ lines_of (r ++ content_of rs)) w) =
              ground (arith, q, more) in
            rw lines goal
      ]
