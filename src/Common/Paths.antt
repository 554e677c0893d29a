-- ===== src/Common/Paths.antt =====
-- path/filepath on Unix: Clean, Join and Dir.
use Prim.Native.Char.{Char, code}
use mathlib.Core.Bool.{Bool, true, false, ◌||◌}
use mathlib.Core.List.{List, [], ◌∷◌, reverse}
use mathlib.Core.Path.{◌≡◌, refl}
use Prim.Native.String.{String}
use text.Mathlib.Text.{◌==◌ as str_eq}
use step_runner.Common.Tests.{if◌then◌else◌, ◌==◌}
use step_runner.Common.Text.{chars, of_chars, append, has_prefix, join, split}

-- What `..` does to the elements before it, the last first.
abbrev pub go_up : Bool → List String → List String
go_up true [] = []
go_up false [] = ".." ∷ []
go_up rooted (p ∷ ps) = if str_eq p ".." then ".." ∷ p ∷ ps else ps

abbrev pub clean_from : Bool → List String → List String → List String
clean_from rooted stack [] = reverse stack
clean_from rooted stack (p ∷ ps) =
    clean_from rooted
      (if str_eq p "" || str_eq p "."
        then stack
        else if str_eq p ".."
        then go_up rooted stack
        else p ∷ stack)
      ps

abbrev or_dot : String → String
or_dot s = if str_eq s "" then "." else s

-- filepath.Clean
unfoldable pub clean : String → String
unfolding has_prefix split join
clean path =
    let rooted = has_prefix path "/" in
    let parts = join "/" (clean_from rooted [] (split b'/' path)) in
    if rooted then append "/" parts else or_dot parts

-- the elements of a rooted path that Clean leaves
abbrev pub elements : String → List String
elements path = clean_from true [] (split b'/' path)

-- filepath.Join: leading empty elements are skipped
unfoldable pub join_path : List String → String
unfolding clean
join_path [] = ""
join_path (p ∷ ps) =
    let rest = join_path ps in if str_eq p "" then rest else clean (join "/" (p ∷ ps))

abbrev from_slash : List Char → List Char
from_slash [] = []
from_slash (c ∷ s) = let rest = from_slash s in if code c == b'/' then c ∷ s else rest

-- the directory of filepath.Split
unfoldable pub split_dir : String → String
split_dir path = of_chars (reverse (from_slash (reverse (chars path))))

-- filepath.Dir
unfoldable pub dir_of : String → String
unfolding clean split_dir
dir_of path = clean (split_dir path)

path_tests :
    (join_path ("" ∷ "/a" ∷ "../b/" ∷ "./c" ∷ []) ≡ "/b/c")
    × (join_path [] ≡ "")
    × (clean "../x/.." ≡ "..")
    × (clean "/.." ≡ "/")
    × (dir_of "steps/hello.txtpb" ≡ "steps")
    × (dir_of "hello.txtpb" ≡ ".")
    × (dir_of "/hello.txtpb" ≡ "/")
unfolding join_path clean dir_of
path_tests = (refl, refl, refl, refl, refl, refl, refl)
