-- ===== src/Promote/RoundTrip.antt =====
-- Reading a version back from its tag.
use step_runner.Common.{
  ℕ, ◌<◌, String, ◌≡◌, refl, true, [], ◌∷◌, ok, append, append-empty, append-cons, split, Option,
  none, some, arith, all_digits, format_uint, max_uint, parse_uint-format_uint,
  is_number-format_uint, all_digits-of_is_number, lt-max_uint-of_parse_uint,
}
use step_runner.Promote.Version.{
  Version, submatch, parse_parts, parse_semantic_version, full_tag, minor_tag, major_tag,
}

split-digits : (s : String) → all_digits s ≡ true → split b'.' s ≡ s ∷ []
unfolding all_digits split
split-digits String.[] h = refl
split-digits (String.◌∷◌ c s) h = ground (arith, split-digits s)

split-append :
    (s t : String) → all_digits s ≡ true → split b'.' (append s (append "." t)) ≡ s ∷ split b'.' t
unfolding all_digits split
split-append String.[] t h =
    rw (append-empty (append "." t), append-cons "." "" t, append-empty t) refl
split-append (String.◌∷◌ c s) t h =
    rw (append-cons c s (append "." t)) ground (arith, split-append s t)

all_digits-format_uint : (n : ℕ) → all_digits (format_uint n) ≡ true
all_digits-format_uint n = all_digits-of_is_number (format_uint n) (is_number-format_uint n)

pub split-full_tag :
    (v : Version)
    → split b'.' (full_tag v) ≡ format_uint v.major ∷ format_uint v.minor ∷ format_uint v.patch ∷ []
unfolding full_tag
split-full_tag v =
    rw
      (
        split-append (format_uint v.major) _ (all_digits-format_uint v.major),
        split-append (format_uint v.minor) _ (all_digits-format_uint v.minor),
        split-digits (format_uint v.patch) (all_digits-format_uint v.patch),
      )
      refl

pub split-minor_tag :
    (v : Version) → split b'.' (minor_tag v) ≡ format_uint v.major ∷ format_uint v.minor ∷ []
unfolding minor_tag
split-minor_tag v =
    rw
      (
        split-append (format_uint v.major) _ (all_digits-format_uint v.major),
        split-digits (format_uint v.minor) (all_digits-format_uint v.minor),
      )
      refl

pub split-major_tag : (v : Version) → split b'.' (major_tag v) ≡ format_uint v.major ∷ []
unfolding major_tag
split-major_tag v = split-digits (format_uint v.major) (all_digits-format_uint v.major)

-- The fields of a version are 64-bit words, and a version that is read from a tag is no candidate.
abbrev pub IsWord : Version → Type 0
IsWord v = (v.major < max_uint) × (v.minor < max_uint) × (v.patch < max_uint) × (v.release ≡ "")

-- A version without a release whose numbers are 64-bit words is read back from its full tag.
pub parse_semantic_version-full_tag :
    (v : Version) → IsWord v → parse_semantic_version (full_tag v) ≡ ok v
unfolding parse_semantic_version submatch parse_parts
parse_semantic_version-full_tag v (major, minor, patch, release) = rw (split-full_tag v) ground (
  arith,
  is_number-format_uint v.major,
  is_number-format_uint v.minor,
  is_number-format_uint v.patch,
  parse_uint-format_uint v.major major,
  parse_uint-format_uint v.minor minor,
  parse_uint-format_uint v.patch patch,
  release,
)

parse_parts-IsWord :
    (tag : String) (groups : Option (String × String × String)) (v : Version)
    → parse_parts tag groups ≡ ok v
    → IsWord v
unfolding parse_parts
parse_parts-IsWord tag none v h = cc
parse_parts-IsWord tag (some (a, b, c)) v h =
    ground
      (arith, lt-max_uint-of_parse_uint a, lt-max_uint-of_parse_uint b, lt-max_uint-of_parse_uint c)

-- What is read from any tag has numbers that are 64-bit words, and no release.
pub parse_semantic_version-IsWord :
    (tag : String) (v : Version) → parse_semantic_version tag ≡ ok v → IsWord v
unfolding parse_semantic_version
parse_semantic_version-IsWord tag v h = parse_parts-IsWord tag (submatch (split b'.' tag)) v h
