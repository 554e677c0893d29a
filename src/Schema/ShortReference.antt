-- ===== src/Schema/ShortReference.antt =====
-- schema/v1/short_reference.go: a step named by one text.
use Prim.Native.Char.{Char, code}
use step_runner.Common.{
  String, Bool, true, false, ◌&&◌, ◌||◌, not, List, [], ◌∷◌, length, errorf, Result, ok, err, chars,
  of_chars, append, has_prefix, has_suffix, trim_prefix, trim_space, split, join, str_eq, ◌==◌, ltb,
  if◌then◌else◌,
}
use step_runner.Proto.{
  ReferenceProtocol, local, git, dist, dynamic, Reference, reference, no_step_path,
  no_spec_definition,
}

-- Behind `${{`, the pattern `.*}}`: a `}}` before the next line.
abbrev closes : List Char → Bool
closes (a ∷ b ∷ s) = (code a == b'}' && code b == b'}') || (not (code a == 10) && closes (b ∷ s))
closes _ = false

-- containsExpressionRe: `\${{.*}}`
abbrev contains_from : List Char → Bool
contains_from (a ∷ b ∷ c ∷ s) =
    (code a == b'$' && (code b == b'{' && (code c == b'{' && closes s)))
    || contains_from (b ∷ c ∷ s)
contains_from _ = false

unfoldable pub contains_expression : String → Bool
contains_expression s = contains_from (chars s)

abbrev pub default_filename : String
default_filename = "step.yml"

abbrev pub short_form : ReferenceProtocol → String → String → List String → String → Reference
short_form protocol url version path filename =
    reference
      (record {
        protocol = protocol;
        url = url;
        path = path;
        filename = filename;
        version = version;
        step_path = no_step_path;
      })
      no_spec_definition

abbrev pub dist_prefix : String
dist_prefix = "dist://"

unfoldable pub compile_dist : String → Result Reference
compile_dist sr =
    ok (short_form dist "" "" (split b'/' (trim_prefix sr dist_prefix)) default_filename)

-- The last element of `strings.Split`, which is never empty, and those before it.
abbrev pub last_of : List String → String
last_of [] = ""
last_of (p ∷ []) = p
last_of (p ∷ q ∷ ps) = last_of (q ∷ ps)

abbrev pub but_last : List String → List String
but_last [] = []
but_last (p ∷ []) = []
but_last (p ∷ q ∷ ps) = p ∷ but_last (q ∷ ps)

-- path[0] = "/"
abbrev root_first : List String → List String
root_first [] = []
root_first (p ∷ ps) = "/" ∷ ps

-- slices.DeleteFunc of the empty elements
abbrev drop_empty : List String → List String
drop_empty [] = []
drop_empty (p ∷ ps) = let rest = drop_empty ps in if str_eq p "" then rest else p ∷ rest

path_of : Bool → String → List String → List String
path_of allow_absolute s path =
    drop_empty (if allow_absolute && has_prefix s "/" then root_first path else path)

unfoldable pub path_filename : Bool → String → List String × String
unfolding path_of
path_filename allow_absolute s =
    if str_eq s ""
    then ([], default_filename)
    else let path = split b'/' s in
      let named = last_of path in
      if has_suffix named ".yml"
      then (path_of allow_absolute s (but_last path), named)
      else (path_of allow_absolute s path, default_filename)

unfoldable pub compile_local : String → Result Reference
compile_local sr =
    let (path, filename) = path_filename true sr in ok (short_form local "" "" path filename)

unfoldable pub default_https : String → String
default_https url =
    if has_prefix url "http://" || has_prefix url "https://" then url else append "https://" url

-- strings.Cut(s, "/-/"), without its third result: what is before and what is behind
abbrev cut_from : List Char → List Char × List Char
cut_from (a ∷ b ∷ c ∷ s) =
    let (before, behind) = cut_from (b ∷ c ∷ s) in
    if code a == b'/' && (code b == b'-' && code c == b'/') then ([], s) else (a ∷ before, behind)
cut_from s = (s, [])

unfoldable pub cut_path : String → String × String
cut_path s = let (before, behind) = cut_from (chars s) in (of_chars before, of_chars behind)

unfoldable pub compile_remote : String → Result Reference
compile_remote sr =
    let parts = split b'@' sr in
    if ltb (length parts) 2
    then err (errorf "expecting url@rev. got %q" (sr ∷ []))
    else let (url, rest) = cut_path (join "@" (but_last parts)) in
      let (path, filename) = path_filename false rest in
      ok (short_form git (default_https url) (last_of parts) ("steps" ∷ path) filename)

-- shortReference.compile
unfoldable pub compile_short : String → Result Reference
compile_short sr =
    let value = trim_space sr in
    if contains_expression sr
    then ok (short_form dynamic sr "" [] "")
    else if has_prefix value "." || has_prefix value "/"
    then compile_local sr
    else if has_prefix sr dist_prefix
    then compile_dist sr
    else compile_remote sr
