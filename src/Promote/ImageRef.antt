-- ===== src/Promote/ImageRef.antt =====
-- promote/internal/remote_image_ref.go and inputs.go: where an image is copied to, and what the
-- step is called with.
use step_runner.Common.{
  if◌then◌else◌, ℕ, String, not, ◌&&◌, Option, none, some, List, [], ◌∷◌, append, contains,
  trim_space, str_eq, join_path, Error, errorf, Result, ok, err, ◌>>=◌, wrapping, parse_uint,
  format_uint,
}
use step_runner.Promote.Pattern.{Groups, find_submatch}
use step_runner.Promote.Version.{
  Version, new_version, parse_semantic_versions, is_release_candidate, tags_to_update, full_tag,
}

-- Package name of go-containerregistry: references, their text, their repository and identifier;
-- the flags of the step, and the levels of slog.
pub record Names : Type 1 where
  pub Reference : Type 0
  pub parse_reference : String → Result Reference
  pub repository : Reference → String
  pub identifier : Reference → String
  -- the error of strconv.ParseUint for digits whose number is out of range
  pub range_error : String → Error
  -- LogLevel.UnmarshalText
  pub parse_level : String → Result ℕ

-- strconv.ParseUint of a group
unfoldable pub number_in : Names → String → Result ℕ
unfolding parse_uint
number_in ns digits = elim (parse_uint digits) [
  | none ↦ err (ns.range_error digits)
  | some n ↦ ok n
]

module _ (ns : Names) where
  abbrev pub RemoteImageRef : Type 0
  RemoteImageRef = ns.Reference × Version

  -- ParseRemoteImageRef behind the pattern
  unfoldable pub parse_groups :
      (registry repository version : String) → Option Groups → Result RemoteImageRef
  unfolding number_in join_path format_uint
  parse_groups registry repository version none = err (
      errorf "version does not conform to semantic versioning major.minor.patch[-release]: %s"
        (version ∷ []))
  parse_groups registry repository version (some g) = do
    major ← wrapping "major version %s: %w" (g.major ∷ []) (number_in ns g.major)
    minor ← wrapping "minor version: %s: %w" (g.minor ∷ []) (number_in ns g.minor)
    patch ← wrapping "patch version: %s: %w" (g.patch ∷ []) (number_in ns g.patch)
    let v = new_version major minor patch g.release
    ref ← wrapping "parsing image reference: %w" [] (
        ns.parse_reference (
          append (join_path (registry ∷ repository ∷ []))
            (append ":" (append (full_tag v) g.release))))
    ok (ref, v)

  unfoldable pub parse_trimmed : (registry repository version : String) → Result RemoteImageRef
  unfolding parse_groups find_submatch
  parse_trimmed registry repository version =
      if str_eq registry ""
      then err (errorf "registry is required" [])
      else if str_eq repository ""
      then err (errorf "repository is required" [])
      else if str_eq version ""
      then err (errorf "version is required" [])
      else parse_groups registry repository version (find_submatch version)

  -- ParseRemoteImageRef
  unfoldable pub parse_remote_image_ref :
      (registry repository version : String) → Result RemoteImageRef
  unfolding parse_trimmed trim_space
  parse_remote_image_ref registry repository version =
      parse_trimmed (trim_space registry) (trim_space repository) (trim_space version)

  -- buildRefForTag
  unfoldable pub build_ref_for_tag : ns.Reference → String → Result ns.Reference
  build_ref_for_tag ref tag =
      wrapping "creating ref for tag %s: %w" (tag ∷ [])
        (ns.parse_reference (append (ns.repository ref) (append ":" tag)))

  -- the loop of SemVerRefs
  unfoldable pub refs_for_tags : ns.Reference → List String → Result (List ns.Reference)
  unfolding build_ref_for_tag
  refs_for_tags ref [] = ok []
  refs_for_tags ref (tag ∷ tags) = do
    to ← wrapping "finding tags to publish: %w" [] (build_ref_for_tag ref tag)
    refs ← refs_for_tags ref tags
    ok (to ∷ refs)

  -- SemVerRefs
  unfoldable pub sem_ver_refs : RemoteImageRef → List String → Result (List ns.Reference)
  unfolding is_release_candidate refs_for_tags tags_to_update parse_semantic_versions
  sem_ver_refs (ref, version) existing_tags =
      if is_release_candidate version
      then ok (ref ∷ [])
      else refs_for_tags ref (tags_to_update version (parse_semantic_versions existing_tags))

  -- parseFromImageRef
  unfoldable pub parse_from_trimmed : String → Result ns.Reference
  unfolding contains
  parse_from_trimmed image =
      if str_eq image ""
      then err (errorf "from image is required" [])
      else (ns.parse_reference image >>= λ ref.
          if str_eq (ns.identifier ref) "latest" && not (contains image "latest")
          then err (errorf "must specify tag or digest" [])
          else ok ref)

  unfoldable pub parse_from_image_ref : String → Result ns.Reference
  unfolding parse_from_trimmed trim_space
  parse_from_image_ref image = parse_from_trimmed (trim_space image)

  -- the values of the flags, and Inputs
  pub record Flags : Type 0 where
    pub from_image : String
    pub to_registry : String
    pub to_repository : String
    pub to_version : String

  pub record Inputs : Type 0 where
    pub from_image_ref : ns.Reference
    pub to_image_ref : RemoteImageRef
    pub log_level : ℕ

  -- ParseInputs, behind what package flag makes of the arguments
  unfoldable pub parse_inputs : Result Flags → (String → String) → Result Inputs
  unfolding parse_from_image_ref parse_remote_image_ref
  parse_inputs flags getenv = do
    f ← flags
    from ← wrapping "from image: %w" [] (parse_from_image_ref f.from_image)
    to ←
        wrapping "to image: %w" []
          (parse_remote_image_ref f.to_registry f.to_repository f.to_version)
    level ← wrapping "log level: %w" [] (ns.parse_level (getenv "CI_STEPS_LOG_LEVEL"))
    ok (record { from_image_ref = from; to_image_ref = to; log_level = level })
