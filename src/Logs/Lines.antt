-- ===== src/Logs/Lines.antt =====
-- The lines of a text, and of a text that comes in parts.
use Prim.Native.Char.{Char, code}
use mathlib.Core.List.{append_assoc}
use step_runner.Common.{
  ◌==◌, leb, ltb, ℕ, suc, ◌≤◌, ◌<◌, ◌≡◌, refl, ap, ◌∙◌, Bool, true, false, List, [], ◌∷◌, ◌++◌,
  length, all, not, arith, ◌&&◌,
}
use step_runner.Logs.Follow.{max_line, add_char, last_line, split_lines}

-- The lines of a text: those in full, and what is behind the last end of line unless it is empty.
unfoldable pub lines_of : List Char → List (List Char)
unfolding split_lines
lines_of s = (split_lines s).0 ++ last_line ((split_lines s).1)

-- No line, and nothing behind the last one, is as long as the scanner's buffer.
abbrev pub is_short : List Char → Bool
is_short s =
    all (λ l. ltb (length l) max_line) ((split_lines s).0)
    && ltb (length ((split_lines s).1)) max_line

add_char-append :
    (newline : Bool) (c : Char) (lines : List (List Char)) (rest b : List Char)
    → (code c == 10) ≡ newline
    → add_char newline c (lines ++ (split_lines (rest ++ b)).0, (split_lines (rest ++ b)).1) ≡ (
      (add_char newline c (lines, rest)).0
          ++ (split_lines ((add_char newline c (lines, rest)).1 ++ b)).0,
      (split_lines ((add_char newline c (lines, rest)).1 ++ b)).1,
    )
unfolding split_lines
add_char-append true c lines rest b h = refl
add_char-append false c [] rest b h = rw h refl
add_char-append false c (line ∷ lines) rest b h = refl

pub split_lines-append :
    (a b : List Char)
    → split_lines (a ++ b) ≡ (
      (split_lines a).0 ++ (split_lines ((split_lines a).1 ++ b)).0,
      (split_lines ((split_lines a).1 ++ b)).1,
    )
unfolding split_lines
split_lines-append [] b = refl
split_lines-append (c ∷ a) b =
    ap (add_char (code c == 10) c) (split_lines-append a b)
    ∙ add_char-append (code c == 10) c (split_lines a).0 (split_lines a).1 b refl

-- Without an end of line.
abbrev pub is_open : List Char → Bool
is_open = all (λ c. not (code c == 10))

add_char-is_open :
    (newline : Bool) (c : Char) (split : List (List Char) × List Char)
    → (code c == 10) ≡ newline
    → is_open split.1 ≡ true
    → is_open (add_char newline c split).1 ≡ true
add_char-is_open true c (lines, rest) q h = h
add_char-is_open false c ([], rest) q h = rw q h
add_char-is_open false c (line ∷ lines, rest) q h = h

-- What is behind the last end of line has none.
pub split_lines-is_open : (a : List Char) → is_open (split_lines a).1 ≡ true
unfolding split_lines
split_lines-is_open [] = refl
split_lines-is_open (c ∷ a) =
    add_char-is_open (code c == 10) c (split_lines a) refl (split_lines-is_open a)

abbrev head_length : List (List Char) × List Char → ℕ
head_length ([], rest) = length rest
head_length (line ∷ lines, rest) = length line

head_length-push_char :
    (newline : Bool) (c : Char) (split : List (List Char) × List Char)
    → newline ≡ false
    → head_length (add_char newline c split) ≡ suc (head_length split)
head_length-push_char true c split q = cc
head_length-push_char false c ([], rest) q = refl
head_length-push_char false c (line ∷ lines, rest) q = refl

le-head_length :
    (r b : List Char) → is_open r ≡ true → length r ≤ head_length (split_lines (r ++ b))
unfolding split_lines
le-head_length [] b h = omega arith
le-head_length (c ∷ r) b h =
    let q : (code c == 10) ≡ false = ground arith in
    let below = le-head_length r b (ground arith) in
    let one = head_length-push_char (code c == 10) c (split_lines (r ++ b)) q in
    rw one (omega arith)

head_length-short :
    (split : List (List Char) × List Char)
    → (all (λ l. ltb (length l) max_line) split.0 && ltb (length split.1) max_line) ≡ true
    → head_length split < max_line
head_length-short ([], rest) h = ground arith
head_length-short (line ∷ lines, rest) h = ground arith

pub short_buffer :
    (r b : List Char)
    → is_open r ≡ true
    → is_short (r ++ b) ≡ true
    → leb max_line (length r) ≡ false
short_buffer r b h short =
    let below = le-head_length r b h in
    let bound = head_length-short (split_lines (r ++ b)) short in ground arith

all-append {ℓ} :
    {A : Type ℓ} (p : A → Bool) (xs ys : List A) → all p (xs ++ ys) ≡ true → all p ys ≡ true
all-append p [] ys h = h
all-append p (x ∷ xs) ys h = all-append p xs ys (ground arith)

pub is_short-rest :
    (a b : List Char) → is_short (a ++ b) ≡ true → is_short ((split_lines a).1 ++ b) ≡ true
is_short-rest a b h =
    let h' = rw (split_lines-append a b) at h in
    let lines =
      all-append (λ l. ltb (length l) max_line) (split_lines a).0
        (split_lines ((split_lines a).1 ++ b)).0 in
    ground arith

pub lines_of-append :
    (a b : List Char) → lines_of (a ++ b) ≡ (split_lines a).0 ++ lines_of ((split_lines a).1 ++ b)
unfolding lines_of
lines_of-append a b = rw (split_lines-append a b) (
    append_assoc (split_lines a).0 (split_lines ((split_lines a).1 ++ b)).0
      (last_line ((split_lines ((split_lines a).1 ++ b)).1)))

split_lines-open : (a : List Char) → is_open a ≡ true → split_lines a ≡ ([], a)
unfolding split_lines
split_lines-open [] h = refl
split_lines-open (c ∷ a) h =
    let q : (code c == 10) ≡ false = ground arith in
    let rest = split_lines-open a (ground arith) in rw (q, rest) refl

pub lines_of-open : (a : List Char) → is_open a ≡ true → lines_of a ≡ last_line a
unfolding lines_of
lines_of-open a h = rw (split_lines-open a h) refl
