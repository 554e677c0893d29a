-- ===== src/Oci/BuildInputs.antt =====
-- oci/build/internal/inputs.go: the files that the inputs of the build step name, behind the decoding
-- of JSON.
use step_runner.Common.{
  if◌then◌else◌, String, Bool, true, false, Option, none, some, List, [], ◌∷◌, Map, map, append,
  split, str_eq, trim_space, errorf, Result, ok, err, ◌>>=◌, wrapping, join_path,
}
use step_runner.Oci.Artifacts.{Platform, Artifact, platform_generic, for_platform, add}
use step_runner.Promote.ImageRef.{Names}

-- the decoded value of one platform
pub record PlatformInput : Type 0 where
  pub os_version : String
  pub os_features : List String
  pub variant : String
  pub features : List String
  pub files : Map String

-- buildArtifacts, over the entries in the order of their sorted keys
unfoldable pub build_artifacts : Platform → Map String → Result (List Artifact)
unfolding trim_space
build_artifacts platform [] = ok []
build_artifacts platform ((src_path, dst_path) ∷ files) =
    let rest = build_artifacts platform files in
    if str_eq (trim_space src_path) ""
    then err (errorf "empty source path: %q: %q" (src_path ∷ dst_path ∷ []))
    else if str_eq (trim_space dst_path) ""
    then err (errorf "empty destination path: %q: %q" (src_path ∷ dst_path ∷ []))
    else (rest >>= λ artifacts. ok (
        record { platform = platform; src = trim_space src_path; dst = trim_space dst_path }
        ∷ artifacts))

-- trimSpaceInStrings
abbrev pub trim_space_in_strings : List String → List String
trim_space_in_strings values = map trim_space values

-- the platform of a name os/arch and its value
unfoldable pub platform_of : List String → PlatformInput → Option Platform
unfolding trim_space
platform_of (os ∷ arch ∷ []) p = some (record {
  os = trim_space os;
  architecture = trim_space arch;
  os_version = trim_space p.os_version;
  os_features = trim_space_in_strings p.os_features;
  variant = trim_space p.variant;
  features = trim_space_in_strings p.features;
})
platform_of _ p = none

abbrev pub is_empty {ℓ} : {A : Type ℓ} → List A → Bool
is_empty [] = true
is_empty (x ∷ xs) = false

module _ (equals : Platform → Platform → Bool) where
  -- the body of the loop of parsePlatforms, behind the split of the name
  unfoldable pub add_platform :
      String → PlatformInput → Option Platform → List Artifact → Result (List Artifact)
  unfolding for_platform build_artifacts
  add_platform name p none all_artifacts = err (errorf "invalid platform os/arch: %s" (name ∷ []))
  add_platform name p (some platform) all_artifacts =
      if is_empty (for_platform equals platform all_artifacts)
      then (wrapping ": %w" [] (build_artifacts platform p.files) >>= λ artifacts.
          ok (add all_artifacts artifacts))
      else err (
          errorf "platform \"%s/%s\" defined more than once"
            (platform.os ∷ platform.architecture ∷ []))

  -- the loop over the names in sorted order
  unfoldable pub add_platforms : List Artifact → Map PlatformInput → Result (List Artifact)
  unfolding add_platform platform_of split
  add_platforms all_artifacts [] = ok all_artifacts
  add_platforms all_artifacts ((name, p) ∷ parsed) = do
    more ← add_platform name p (platform_of (split b'/' name) p) all_artifacts
    add_platforms more parsed

  -- parsePlatforms
  unfoldable pub parse_platforms : Result (Map PlatformInput) → Result (List Artifact)
  unfolding add_platforms
  parse_platforms decoded = decoded >>= λ parsed.
      if is_empty parsed
      then err (errorf "must have at least one platform" [])
      else add_platforms [] parsed

-- parseCommon
unfoldable pub parse_common : Result (Map String) → Result (List Artifact)
unfolding build_artifacts
parse_common decoded = do files ← decoded; build_artifacts platform_generic files

module _ (ns : Names) where
  -- parseImageRef
  unfoldable pub parse_image_ref : (registry repository tag : String) → Result ns.Reference
  unfolding trim_space join_path
  parse_image_ref registry repository tag =
      if str_eq (trim_space registry) ""
      then err (errorf "registry is required" [])
      else if str_eq (trim_space repository) ""
      then err (errorf "repository is required" [])
      else if str_eq (trim_space tag) ""
      then err (errorf "tag is required" [])
      else wrapping "parsing image reference: %w" [] (
          ns.parse_reference (
            append (join_path (trim_space registry ∷ trim_space repository ∷ []))
              (append ":" (trim_space tag))))
