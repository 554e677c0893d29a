-- ===== src/Logs/Streaming.antt =====
-- Follow of a log that others write to and close.
use Prim.Native.Char.{Char}
use mathlib.Core.List.{append_assoc, append-nil}
use step_runner.Common.{
  ℕ, zero, suc, ◌+◌, ◌-◌, ◌≤◌, ◌<◌, ◌≡◌, refl, ap, sym, ◌∙◌, Bool, true, false, none, some, List,
  [], ◌∷◌, ◌++◌, length, take, drop, arith, inl, inr, ◌⊎◌, Bool-cases, length-append, ◌==◌,
  drop-nil, drop-append_left, drop_add, take-drop, length-drop, le-length-take,
}
use step_runner.Logs.Streamer.{
  Streamer, write_at, write, stop_stream, close_stream, Read, chunk, eof, read_content, read_at,
  Follows, wrote, stopped, closes, reads, ends,
}
use step_runner.Logs.Follow.{Writer, write_lines, follow}
use step_runner.Logs.Lines.{lines_of, is_short}
use step_runner.Logs.Chunks.{content_of, ends_at_eof, follow_behind}

read_content-chunk : (stop : Bool) (l s : List Char) → read_content stop l ≡ some (chunk s) → l ≡ s
read_content-chunk stop (c ∷ l) s h = cc
read_content-chunk true [] s h = cc
read_content-chunk false [] s h = cc

read_content-eof : (stop : Bool) (l : List Char) → read_content stop l ≡ some eof → l ≡ []
read_content-eof stop (c ∷ l) h = cc
read_content-eof true [] h = refl
read_content-eof false [] h = refl

take-nil : (n : ℕ) (l : List Char) → take (suc n) l ≡ [] → l ≡ []
take-nil n [] h = refl
take-nil n (c ∷ l) h = cc

read_at-chunk :
    (n pos : ℕ) (st : Streamer) (s : List Char)
    → read_at none n pos st ≡ some (chunk s)
    → take n (drop pos st.content) ≡ s
unfolding read_at
read_at-chunk n pos st s h = read_content-chunk st.stop (take n (drop pos st.content)) s h

read_at-eof :
    (n pos : ℕ) (st : Streamer) → read_at none (suc n) pos st ≡ some eof → drop pos st.content ≡ []
unfolding read_at
read_at-eof n pos st h =
    take-nil n (drop pos st.content)
      (read_content-eof st.stop (take (suc n) (drop pos st.content)) h)

-- The next write begins at the end of the file, as it does in a file that New has created.
abbrev pub is_at_end : Streamer → Bool
is_at_end st = st.position == length st.content

take-all : (l : List Char) → take (length l) l ≡ l
take-all [] = refl
take-all (c ∷ l) = ap (λ t. c ∷ t) (take-all l)

drop-all : (l : List Char) (n : ℕ) → drop (length l + n) l ≡ []
drop-all [] n = drop-nil (0 + n)
drop-all (c ∷ l) n =
    let e : suc (length l) + n ≡ suc (length l + n) = omega arith in rw e (drop-all l n)

write_at-end :
    (position : ℕ) (p l : List Char) → position ≡ length l → write_at position p l ≡ l ++ p
write_at-end position p l h =
    rw (h, take-all l, drop-all l (length p)) (ap (λ t. l ++ t) (append-nil p))

-- A log that is written to at its end only grows, and is then written to at its end.
write-grows :
    (p : List Char) (st : Streamer)
    → is_at_end st ≡ true
    → ((more : List Char) × ((write p st).1.content ≡ st.content ++ more))
      × (is_at_end (write p st).1 ≡ true)
unfolding write
write-grows p st h = elim (Bool-cases st.closed) [
  | inl q ↦ (([], rw (q, append-nil st.content) refl), rw q h)
  | inr q ↦
      let e : st.position ≡ length st.content = ground arith in
      let grown = write_at-end st.position p st.content e in
      (
        (p, rw (q, grown) refl),
        rw (q, grown) (let size = length-append st.content p in ground arith),
      )
]

-- What a text was, from a position on, is what it is from there on without its end.
drop_more :
    (pos : ℕ) (now more fin : List Char)
    → pos ≤ length now
    → fin ≡ now ++ more
    → drop pos fin ≡ drop pos now ++ more
drop_more pos now more fin h e = rw e (drop-append_left pos now more h)

after_taken :
    (n : ℕ) (l more s : List Char) → take n l ≡ s → s ++ drop (length s) (l ++ more) ≡ l ++ more
after_taken n l more s h =
    let size : length s ≤ length l = (let e = le-length-take n l in rw (← h) e) in
    let split : s ++ drop (length s) l ≡ l = (let e = take-drop n l in rw (← h) e) in
    ap (λ t. s ++ t) (drop-append_left (length s) l more size)
    ∙ sym (append_assoc s (drop (length s) l) more)
    ∙ ap (λ t. t ++ more) split

-- The reader returns the log from its position on, as it is when the reader comes to its end.
pub Follows-content :
    {st fin : Streamer} {pos : ℕ} {rs : List Read}
    → Follows st pos rs fin
    → is_at_end st ≡ true
    → pos ≤ length st.content
    → ((more : List Char) × (fin.content ≡ st.content ++ more))
      × (content_of rs ≡ drop pos fin.content)
      × (ends_at_eof rs ≡ true)
unfolding content_of ends_at_eof stop_stream close_stream
Follows-content (wrote {st} {fin} {pos} {rs} p f) end h =
    let ((more, grown), still_end) = write-grows p st end in
    let longer = length-append st.content more in
    let still : pos ≤ length ((write p st).1.content) = rw grown (omega (arith, longer)) in
    let ((rest, all_of), read, ending) = Follows-content f still_end still in
    (
      (more ++ rest, all_of ∙ ap (λ t. t ++ rest) grown ∙ append_assoc st.content more rest),
      read,
      ending,
    )
Follows-content (stopped f) end h = Follows-content f end h
Follows-content (closes f) end h = Follows-content f end h
Follows-content (reads {st} {fin} {pos} {rs} n s r f) end h =
    let taken = read_at-chunk n pos st s r in
    let room = le-length-take n (drop pos st.content) in
    let size : length s ≤ length (drop pos st.content) = rw (← taken) room in
    let left = length-drop pos st.content in
    let bound : pos + length s ≤ length st.content = omega arith in
    let ((more, grown), read, ending) = Follows-content f end bound in
    let rest = read ∙ drop_add pos (length s) fin.content in
    let whole = drop_more pos st.content more fin.content h grown in
    let joined = after_taken n (drop pos st.content) more s taken in
    (
      (more, grown),
      ap (λ t. s ++ t) (rest ∙ ap (drop (length s)) whole) ∙ joined ∙ sym whole,
      ending,
    )
Follows-content (ends {st} {pos} n r) end h =
    (([], sym (append-nil st.content)), sym (read_at-eof n pos st r), refl)

module _ {W : Type 0} (wr : Writer W) where
  -- Whatever is written, stopped and closed while a log is read up to its end, and however it is
  -- read, Follow passes to the writer the lines of what the log then holds behind the offset, if
  -- each is shorter than the scanner's buffer, the offset is not behind the log's end at the
  -- start, and the next write begins at that end, as it does in a log that was created empty.
  pub Follows-follow :
      (st fin : Streamer) (offset : ℕ) (rs : List Read) (w : W)
      → Follows st offset rs fin
      → is_at_end st ≡ true
      → offset ≤ length st.content
      → is_short (drop offset fin.content) ≡ true
      → follow wr [] rs w ≡ some (write_lines wr (lines_of (drop offset fin.content)) w)
  Follows-follow st fin offset rs w f end h short =
      let (grown, read, ending) = Follows-content f end h in
      let short' : is_short ([] ++ content_of rs) ≡ true = rw read short in
      let followed = follow_behind wr [] rs w refl ending short' in
      followed ∙ ap (λ t. some (write_lines wr (lines_of t) w)) read

-- The reads of a log that nobody writes to, each with a buffer whose size depends on how far the reader
-- has come.
unfoldable pub reads_of : ℕ → (ℕ → ℕ) → ℕ → Streamer → List Read
unfolding read_at
reads_of zero sizes pos st = []
reads_of (suc fuel) sizes pos st = elim (read_at none (suc (sizes pos)) pos st) [
  | some (chunk s) ↦ chunk s ∷ reads_of fuel sizes (pos + length s) st
  | some r ↦ r ∷ []
  | none ↦ []
]

stopped-cases :
    (l : List Char)
    → (read_content true l ≡ some eof)
      ⊎ ((s : List Char) × (read_content true l ≡ some (chunk s)) × (l ≡ s) × (0 < length s))
stopped-cases [] = inl refl
stopped-cases (c ∷ l) = inr (c ∷ l, refl, refl, omega arith)

-- They are the log from the position on, up to its end.
reads_of-content :
    (fuel : ℕ) (sizes : ℕ → ℕ) (pos : ℕ) (st : Streamer)
    → st.stop ≡ true
    → pos ≤ length st.content
    → length st.content < pos + fuel
    → (content_of (reads_of fuel sizes pos st) ≡ drop pos st.content)
      × (ends_at_eof (reads_of fuel sizes pos st) ≡ true)
unfolding reads_of read_at content_of ends_at_eof
reads_of-content zero sizes pos st stop bound h = absurd (omega arith)
reads_of-content (suc fuel) sizes pos st stop bound h =
    elim (stopped-cases (take (suc (sizes pos)) (drop pos st.content))) [
      | inl q ↦
          let now : read_at none (suc (sizes pos)) pos st ≡ some eof = rw stop q in
          let all_reads : reads_of (suc fuel) sizes pos st ≡ eof ∷ [] = ground (arith, now) in
          rw all_reads (sym (read_at-eof (sizes pos) pos st now), refl)
      | inr (s, q, taken, some_left) ↦
          let now : read_at none (suc (sizes pos)) pos st ≡ some (chunk s) = rw stop q in
          let all_reads : reads_of (suc fuel) sizes pos st
              ≡ chunk s ∷ reads_of fuel sizes (pos + length s) st =
            ground (arith, now) in
          let room = le-length-take (suc (sizes pos)) (drop pos st.content) in
          let size : length s ≤ length (drop pos st.content) = rw (← taken) room in
          let left = length-drop pos st.content in
          let (rest, ending) =
            reads_of-content fuel sizes (pos + length s) st stop (omega arith) (omega arith) in
          let joined = after_taken (suc (sizes pos)) (drop pos st.content) [] s taken in
          let none_more = append-nil (drop pos st.content) in
          rw all_reads (
            ap (λ t. s ++ t) (rest ∙ drop_add pos (length s) st.content) ∙ (rw none_more at joined),
            ending,
          )
    ]

module _ {W : Type 0} (wr : Writer W) where
  -- Follow of a log that was closed, and that nobody writes to, ends after at most as many reads
  -- as the log has bytes behind the offset, and one more, whatever the size of the buffer of each
  -- read is, if it is not zero: it has then passed the lines behind the offset to the writer, if
  -- each is shorter than the scanner's buffer and the offset is not behind the log's end.
  pub close_stream-follow :
      (st : Streamer) (offset : ℕ) (sizes : ℕ → ℕ) (w : W)
      → offset ≤ length st.content
      → is_short (drop offset st.content) ≡ true
      → follow wr [] (reads_of (suc (length st.content - offset)) sizes offset (close_stream st)) w
        ≡ some (write_lines wr (lines_of (drop offset st.content)) w)
  unfolding close_stream stop_stream
  close_stream-follow st offset sizes w bound short =
      let closed = close_stream st in
      let rs = reads_of (suc (length st.content - offset)) sizes offset closed in
      let (read, ending) =
        reads_of-content (suc (length st.content - offset)) sizes offset closed refl bound
          (omega arith) in
      let short' : is_short ([] ++ content_of rs) ≡ true = rw read short in
      follow_behind wr [] rs w refl ending short'
      ∙ ap (λ t. some (write_lines wr (lines_of t) w)) read
