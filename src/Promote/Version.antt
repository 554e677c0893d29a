-- ===== src/Promote/Version.antt =====
-- promote/internal/version.go: versions, the tags that name them, and the tags that a new version
-- moves.
use step_runner.Common.{
  ltb, ◌==◌, if◌then◌else◌, ℕ, String, Bool, true, false, not, ◌&&◌, ◌||◌, Option, none, some, List,
  [], ◌∷◌, append, split, Result, ok, err, errorf, str_eq, is_number, parse_uint, format_uint,
}

pub record Version : Type 0 where
  pub major : ℕ
  pub minor : ℕ
  pub patch : ℕ
  pub release : String

abbrev pub new_version : ℕ → ℕ → ℕ → String → Version
new_version major minor patch release = record {
  major = major;
  minor = minor;
  patch = patch;
  release = release;
}

abbrev not_semver : String → Result Version
not_semver tag =
    err (errorf "parse tag %s: does not conform to semver major.minor.patch" (tag ∷ []))

-- the groups of `^(\d+)\.(\d+)\.(\d+)$`
unfoldable pub submatch : List String → Option (String × String × String)
unfolding is_number
submatch (a ∷ b ∷ c ∷ []) =
    if is_number a && is_number b && is_number c then some (a, b, c) else none
submatch _ = none

unfoldable pub parse_parts : String → Option (String × String × String) → Result Version
unfolding parse_uint
parse_parts tag none = not_semver tag
parse_parts tag (some (a, b, c)) = elim (parse_uint a) [
  | none ↦ not_semver tag
  | some major ↦ elim (parse_uint b) [
    | none ↦ not_semver tag
    | some minor ↦ elim (parse_uint c) [
      | none ↦ not_semver tag
      | some patch ↦ ok (new_version major minor patch "")
    ]
  ]
]

-- ParseSemanticVersion
unfoldable pub parse_semantic_version : String → Result Version
unfolding split
parse_semantic_version tag = parse_parts tag (submatch (split b'.' tag))

abbrev keep : Result Version → List Version → List Version
keep (ok v) vs = v ∷ vs
keep (err e) vs = vs

-- ParseSemanticVersions
unfoldable pub parse_semantic_versions : List String → List Version
parse_semantic_versions [] = []
parse_semantic_versions (tag ∷ tags) =
    keep (parse_semantic_version tag) (parse_semantic_versions tags)

-- IsReleaseCandidate
unfoldable pub is_release_candidate : Version → Bool
is_release_candidate v = not (str_eq v.release "")

-- fmt.Sprintf("%d.%d.%d", v.major, v.minor, v.patch), and without the patch, and the major alone
unfoldable pub major_tag : Version → String
unfolding format_uint
major_tag v = format_uint v.major

unfoldable pub minor_tag : Version → String
unfolding format_uint
minor_tag v = append (format_uint v.major) (append "." (format_uint v.minor))

unfoldable pub full_tag : Version → String
unfolding format_uint
full_tag v =
    append (format_uint v.major)
      (append "." (append (format_uint v.minor) (append "." (format_uint v.patch))))

unfoldable pub is_most_recent_patch_for_major_minor : Version → List Version → Bool
is_most_recent_patch_for_major_minor v [] = true
is_most_recent_patch_for_major_minor v (e ∷ existing) =
    let rest = is_most_recent_patch_for_major_minor v existing in
    if not (e.major == v.major) || not (e.minor == v.minor)
    then rest
    else if ltb v.patch e.patch
    then false
    else rest

unfoldable pub is_most_recent_minor_for_major : Version → List Version → Bool
is_most_recent_minor_for_major v [] = true
is_most_recent_minor_for_major v (e ∷ existing) =
    let rest = is_most_recent_minor_for_major v existing in
    if not (e.major == v.major) then rest else if ltb v.minor e.minor then false else rest

unfoldable pub is_most_recent_major : Version → List Version → Bool
is_most_recent_major v [] = true
is_most_recent_major v (e ∷ existing) =
    let rest = is_most_recent_major v existing in if ltb v.major e.major then false else rest

-- TagsToUpdate
unfoldable pub tags_to_update : Version → List Version → List String
tags_to_update v existing =
    full_tag v
    ∷ (if is_most_recent_patch_for_major_minor v existing
        then minor_tag v
          ∷ (if is_most_recent_minor_for_major v existing
              then major_tag v ∷ (if is_most_recent_major v existing then "latest" ∷ [] else [])
              else [])
        else [])
