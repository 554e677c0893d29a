-- ===== src/Common/Text.antt =====
-- Text, and the functions of Go's packages strings and unicode that the program uses.
-- The program's strings are byte sequences, and a `String` here is a sequence of characters: the
-- code cuts strings only at ASCII marks, so that both readings cut at the same places.
use Prim.Native.Nat.{ℕ}
use Prim.Native.Char.{Char, code}
use Prim.Native.String
use Prim.Native.String.{String}
use mathlib.Core.Path.{◌≡◌, refl, ap}
use mathlib.Core.Bool.{Bool, true, false, ◌&&◌, ◌||◌}
use mathlib.Core.List.{List, [], ◌∷◌, reverse, map}
use step_runner.Common.Tests.{◌==◌, leb, if◌then◌else◌}
use step_runner.Common.Lists.{length, drop}

-- The characters of a string, and the string of a list of characters.
abbrev pub chars : String → List Char
chars String.[] = []
chars (String.◌∷◌ c s) = c ∷ chars s

abbrev pub of_chars : List Char → String
of_chars [] = String.[]
of_chars (c ∷ s) = String.◌∷◌ c (of_chars s)

pub of_chars-chars : (s : String) → of_chars (chars s) ≡ s
of_chars-chars String.[] = refl
of_chars-chars (String.◌∷◌ c s) = ap (String.◌∷◌ c) (of_chars-chars s)

pub chars-of_chars : (s : List Char) → chars (of_chars s) ≡ s
chars-of_chars [] = refl
chars-of_chars (c ∷ s) = ap (λ (t : List Char). c ∷ t) (chars-of_chars s)

abbrev pub append : String → String → String
append s t = String.◌++◌ s t

pub append-empty : (t : String) → append String.[] t ≡ t
append-empty t = λ i. String.append.nil t i

pub append-cons : (c : Char) (s t : String) → append (String.◌∷◌ c s) t ≡ String.◌∷◌ c (append s t)
append-cons c s t = λ i. String.append.cons c s t i

abbrev is_prefix : List Char → List Char → Bool
is_prefix [] s = true
is_prefix (a ∷ p) [] = false
is_prefix (a ∷ p) (c ∷ s) = code a == code c && is_prefix p s

-- strings.HasPrefix(s, prefix), strings.HasSuffix(s, suffix)
unfoldable pub has_prefix : String → String → Bool
has_prefix s prefix = is_prefix (chars prefix) (chars s)

unfoldable pub has_suffix : String → String → Bool
has_suffix s suffix = is_prefix (reverse (chars suffix)) (reverse (chars s))

abbrev contains_in : List Char → List Char → Bool
contains_in sub [] = is_prefix sub []
contains_in sub (c ∷ s) = is_prefix sub (c ∷ s) || contains_in sub s

-- strings.Contains(s, sub)
unfoldable pub contains : String → String → Bool
contains s sub = contains_in (chars sub) (chars s)

-- strings.TrimPrefix(s, prefix)
unfoldable pub trim_prefix : String → String → String
unfolding has_prefix
trim_prefix s prefix =
    if has_prefix s prefix then of_chars (drop (length (chars prefix)) (chars s)) else s

-- unicode.IsSpace
abbrev is_space : ℕ → Bool
is_space c =
    (leb 9 c && leb c 13)
    || c == 32
    || c == 0x85
    || c == 0xa0
    || c == 0x1680
    || (leb 0x2000 c && leb c 0x200a)
    || c == 0x2028
    || c == 0x2029
    || c == 0x202f
    || c == 0x205f
    || c == 0x3000

drop_space : List Char → List Char
drop_space [] = []
drop_space (c ∷ s) = let rest = drop_space s in if is_space (code c) then rest else c ∷ s

-- strings.TrimSpace
unfoldable pub trim_space : String → String
unfolding drop_space
trim_space s = of_chars (reverse (drop_space (reverse (drop_space (chars s)))))

abbrev to_head : Char → List String → List String
to_head c [] = String.◌∷◌ c String.[] ∷ []
to_head c (p ∷ ps) = String.◌∷◌ c p ∷ ps

-- strings.Split(s, sep), for a separator of one character, given by its code
unfoldable pub split : ℕ → String → List String
split sep String.[] = "" ∷ []
split sep (String.◌∷◌ c s) =
    let rest = split sep s in if code c == sep then "" ∷ rest else to_head c rest

-- strings.Join(parts, sep)
unfoldable pub join : String → List String → String
join sep [] = ""
join sep (p ∷ []) = p
join sep (p ∷ q ∷ ps) = append p (append sep (join sep (q ∷ ps)))

-- The letters that unicode.ToLower maps to ASCII. Others are left as they are: the program
-- compares what it lowers only with ASCII words.
abbrev lower_in : List Char → List Char → Char → Char
lower_in (upper ∷ us) (lower ∷ ls) c = if code upper == code c then lower else lower_in us ls c
lower_in _ _ c = c

-- strings.ToLower
unfoldable pub to_lower : String → String
to_lower s = of_chars (
    map (lower_in (chars "ABCDEFGHIJKLMNOPQRSTUVWXYZİK") (chars "abcdefghijklmnopqrstuvwxyzik"))
      (chars s))

text_tests :
    (trim_space " \t a b\n" ≡ "a b")
    × (split b'.' "a..b" ≡ "a" ∷ "" ∷ "b" ∷ [])
    × (join "/" ("a" ∷ "b" ∷ []) ≡ "a/b")
    × (to_lower "DeBUG" ≡ "debug")
    × (has_suffix "step.yml" ".yml" ≡ true)
    × (trim_prefix "dist://x" "dist://" ≡ "x")
unfolding trim_space split join to_lower has_suffix trim_prefix
text_tests = (refl, refl, refl, refl, refl, refl)
