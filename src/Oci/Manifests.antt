-- ===== src/Oci/Manifests.antt =====
-- oci/fetch/internal/platform.go: the manifest of an index that fits a platform.
use step_runner.Common.{
  if◌then◌else◌, String, Bool, true, ◌&&◌, Option, none, some, List, [], ◌∷◌, append, join, map,
  str_eq,
}
use step_runner.Oci.Artifacts.{Platform}

-- platforms.Platform of containerd
pub record HostPlatform : Type 0 where
  pub architecture : String
  pub os : String
  pub os_version : String
  pub os_features : List String
  pub variant : String

-- v1.Descriptor, as far as it is used
pub record Descriptor : Type 0 where
  pub platform : Platform
  pub digest : String

-- platforms.Only: whether a platform can run on another, and which of two is to be preferred
pub record Matcher : Type 0 where
  pub matches : HostPlatform → HostPlatform → Bool
  pub less : HostPlatform → HostPlatform → HostPlatform → Bool

-- ConvertPlatformV1ToCtrd
abbrev pub convert_platform : Platform → HostPlatform
convert_platform p = record {
  architecture = p.architecture;
  os = p.os;
  os_version = p.os_version;
  os_features = p.os_features;
  variant = p.variant;
}

module _ (m : Matcher) where
  abbrev pub is_better : HostPlatform → Descriptor → Option Descriptor → Bool
  is_better find_for d none = true
  is_better find_for d (some matched) =
      m.less find_for (convert_platform d.platform) (convert_platform matched.platform)

  -- the loop of FindManifestForPlatform, with what has matched so far
  unfoldable pub find_manifest_from :
      HostPlatform → Option Descriptor → List Descriptor → Option Descriptor
  find_manifest_from find_for matched [] = matched
  find_manifest_from find_for matched (d ∷ manifests) =
      find_manifest_from find_for
        (if m.matches find_for (convert_platform d.platform) && is_better find_for d matched
          then some d
          else matched)
        manifests

  unfoldable pub find_manifest_for_platform : HostPlatform → List Descriptor → Option Descriptor
  unfolding find_manifest_from
  find_manifest_for_platform find_for manifests = find_manifest_from find_for none manifests

  -- FindManifestForPlatforms
  unfoldable pub find_manifest_for_platforms :
      List HostPlatform → List Descriptor → Option Descriptor
  unfolding find_manifest_for_platform
  find_manifest_for_platforms [] manifests = none
  find_manifest_for_platforms (platform ∷ find_for) manifests =
      let rest = find_manifest_for_platforms find_for manifests in
      elim (find_manifest_for_platform platform manifests) [ none ↦ rest | some d ↦ some d ]

abbrev with_part : String → String → String
with_part text part = if str_eq part "" then text else append text (append "/" part)

-- DescribePlatform and DescribePlatforms
unfoldable pub describe_platform : HostPlatform → String
describe_platform p = with_part (with_part p.os p.architecture) p.variant

unfoldable pub describe_platforms : List HostPlatform → String
unfolding describe_platform join
describe_platforms plats = join " or " (map describe_platform plats)
