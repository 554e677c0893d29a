-- ===== src/Promote/Pattern.antt =====
-- promote/internal/remote_image_ref.go: the pattern semVerRe, `^(\d+)\.(\d+)\.(\d+)(-.*)?$`.
use Prim.Native.Char.{code}
use step_runner.Common.{
  ◌==◌, if◌then◌else◌, String, Bool, true, not, ◌&&◌, Option, none, some, is_digit, is_number,
}
use step_runner.Common.Options.{◌>>=◌}

-- `(\d+)` with what follows it
unfoldable pub span_digits : String → String × String
span_digits String.[] = ("", "")
span_digits (String.◌∷◌ c s) =
    let (a, rest) = span_digits s in
    if is_digit (code c) then (String.◌∷◌ c a, rest) else ("", String.◌∷◌ c s)

unfoldable pub after_dot : String → Option String
after_dot String.[] = none
after_dot (String.◌∷◌ c s) = if code c == b'.' then some s else none

unfoldable pub is_line : String → Bool
is_line String.[] = true
is_line (String.◌∷◌ c s) = not (code c == 10) && is_line s

-- `(-.*)?$`
unfoldable pub release_of : String → Option String
unfolding is_line
release_of String.[] = some ""
release_of (String.◌∷◌ c s) = if code c == b'-' && is_line s then some (String.◌∷◌ c s) else none

abbrev number_of : String × String → Option (String × String)
number_of (a, rest) = if is_number a then some (a, rest) else none

unfoldable pub scan_number : String → Option (String × String)
unfolding span_digits is_number
scan_number s = number_of (span_digits s)

-- the groups of `^(\d+)\.(\d+)\.(\d+)(-.*)?$`
pub record Groups : Type 0 where
  pub major : String
  pub minor : String
  pub patch : String
  pub release : String

unfoldable pub find_submatch : String → Option Groups
unfolding scan_number after_dot release_of
find_submatch version = do
  (major, s) ← scan_number version
  s ← after_dot s
  (minor, s) ← scan_number s
  s ← after_dot s
  (patch, s) ← scan_number s
  release ← release_of s
  some (record { major = major; minor = minor; patch = patch; release = release })
