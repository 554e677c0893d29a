-- ===== src/Expression/Interpolate/Marks.antt =====
-- Where the marks of a text are.
use Prim.Native.Char.{Char}
use native.Mathlib.Omega.{arith}
use step_runner.Common.{
  ℕ, suc, ◌+◌, ◌≡◌, refl, ap, ◌∙◌, chars, none, some, List, [], ◌∷◌, ◌++◌, length,
}
use mathlib.Core.List.{append-nil}
use step_runner.Expression.Interpolate.{
  interpolate_open, interpolate_close, Mark, Match, mark_at, mark_length, find_all,
}

-- No mark starts in the first text when the second follows it.
abbrev pub IsClean : List Char → List Char → Type 0
IsClean [] rest = Unit
IsClean (c ∷ s) rest = (mark_at (c ∷ s ++ rest) ≡ none) × IsClean s rest

pub find_all-clean :
    (at : ℕ) (s rest : List Char)
    → IsClean s rest
    → find_all at 0 (s ++ rest) ≡ find_all (at + length s) 0 rest
unfolding find_all
find_all-clean at [] rest clean = ap (λ (n : ℕ). find_all n 0 rest) (omega arith)
find_all-clean at (c ∷ s) rest (here, clean) =
    rw (here, find_all)
      (find_all-clean (suc at) s rest clean ∙ ap (λ (n : ℕ). find_all n 0 rest) (omega arith))

abbrev pub open_chars : List Char
open_chars = chars "${{"

abbrev pub close_chars : List Char
close_chars = chars "}}"

abbrev pub match_at : ℕ → Mark → Match
match_at at m = record { start = at; stop = at + mark_length m; mark = m }

pub find_all-open :
    (at : ℕ) (s : List Char)
    → find_all at 0 (open_chars ++ s) ≡ match_at at interpolate_open ∷ find_all (at + 3) 0 s
unfolding find_all
find_all-open at s =
    ap (λ (n : ℕ). match_at at interpolate_open ∷ find_all n 0 s)
      (let e : suc (suc (suc at)) ≡ at + 3 = omega arith in e)

mark_at-close : (s : List Char) → mark_at (close_chars ++ s) ≡ some interpolate_close
mark_at-close [] = refl
mark_at-close (c ∷ s) = refl

pub find_all-close :
    (at : ℕ) (s : List Char)
    → find_all at 0 (close_chars ++ s) ≡ match_at at interpolate_close ∷ find_all (at + 2) 0 s
unfolding find_all
find_all-close at s =
    rw (mark_at-close s, find_all)
      (ap (λ (n : ℕ). match_at at interpolate_close ∷ find_all n 0 s)
        (let e : suc (suc at) ≡ at + 2 = omega arith in e))

-- A text cut at its marks: a literal, and parts that are an expression and the literal behind it.
abbrev pub Parts : Type 0
Parts = List (List Char × List Char)

abbrev pub render : List Char → Parts → List Char
render lit [] = lit
render lit ((e, l) ∷ ps) = lit ++ (open_chars ++ (e ++ (close_chars ++ render l ps)))

-- The marks of the text are those between the parts.
abbrev pub IsWellCut : List Char → Parts → Type 0
IsWellCut lit [] = IsClean lit []
IsWellCut lit ((e, l) ∷ ps) =
    IsClean lit (open_chars ++ (e ++ (close_chars ++ render l ps)))
    × IsClean e (close_chars ++ render l ps)
    × IsWellCut l ps

abbrev pub matches : ℕ → List Char → Parts → List Match
matches at lit [] = []
matches at lit ((e, l) ∷ ps) =
    match_at (at + length lit) interpolate_open
    ∷ match_at (at + length lit + 3 + length e) interpolate_close
    ∷ matches (at + length lit + 3 + length e + 2) l ps

find_all-nil : (at : ℕ) → find_all at 0 [] ≡ []
unfolding find_all
find_all-nil at = refl

pub find_all-render :
    (at : ℕ) (lit : List Char) (ps : Parts)
    → IsWellCut lit ps
    → find_all at 0 (render lit ps) ≡ matches at lit ps
find_all-render at lit [] clean =
    rw (← append-nil lit) (find_all-clean at lit [] clean ∙ find_all-nil (at + length lit))
find_all-render at lit ((e, l) ∷ ps) (clean, inside, cut) = rw (
  find_all-clean at lit _ clean,
  find_all-open (at + length lit) _,
  find_all-clean (at + length lit + 3) e _ inside,
  find_all-close (at + length lit + 3 + length e) _,
  find_all-render (at + length lit + 3 + length e + 2) l ps cut,
)
