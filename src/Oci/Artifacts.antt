-- ===== src/Oci/Artifacts.antt =====
-- oci/build/internal/artifacts.go: the files of an image, each for a platform.
use step_runner.Common.{if◌then◌else◌, String, Bool, false, ◌||◌, List, [], ◌∷◌, ◌++◌}

-- v1.Platform of go-containerregistry
pub record Platform : Type 0 where
  pub os : String
  pub architecture : String
  pub os_version : String
  pub os_features : List String
  pub variant : String
  pub features : List String

pub record Artifact : Type 0 where
  pub platform : Platform
  pub src : String
  pub dst : String

-- PlatformGeneric
abbrev pub platform_generic : Platform
platform_generic = record {
  os = "generic";
  architecture = "generic";
  os_version = "";
  os_features = [];
  variant = "";
  features = [];
}

-- `equals` is Platform.Equals of go-containerregistry.
module _ (equals : Platform → Platform → Bool) where
  -- ForPlatform
  unfoldable pub for_platform : Platform → List Artifact → List Artifact
  for_platform p [] = []
  for_platform p (a ∷ artifacts) =
      let rest = for_platform p artifacts in if equals a.platform p then a ∷ rest else rest

  -- the inner loop of Platforms
  unfoldable pub is_seen : Platform → List Platform → Bool
  is_seen p [] = false
  is_seen p (q ∷ unique) = equals p q || is_seen p unique

  -- Platforms, with what it has found so far
  unfoldable pub platforms_from : List Platform → List Artifact → List Platform
  unfolding is_seen
  platforms_from unique [] = unique
  platforms_from unique (a ∷ artifacts) =
      platforms_from (if is_seen a.platform unique then unique else unique ++ a.platform ∷ [])
        artifacts

  unfoldable pub platforms : List Artifact → List Platform
  unfolding platforms_from
  platforms artifacts = platforms_from [] artifacts

-- Add
abbrev pub add : List Artifact → List Artifact → List Artifact
add a artifacts = a ++ artifacts
