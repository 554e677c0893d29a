-- ===== src/Oci/Pull.antt =====
-- oci/fetch/api/client.go: an image is pulled into a new directory.
use step_runner.Common.{
  String, Option, none, some, List, [], ◌∷◌, map, errorf, Result, ok, err, wrapping,
}
use step_runner.Oci.World.{and_then, wrapped}
use step_runner.Oci.Artifacts.{Platform}
use step_runner.Oci.Manifests.{
  HostPlatform, Descriptor, Matcher, convert_platform, find_manifest_for_platforms,
  describe_platforms,
}
use step_runner.Oci.Layers.{Layer, Disk, write_layers}

-- Package remote of go-containerregistry, platforms.DefaultSpec, and os.MkdirTemp.
pub record Registry (W : Type 0) : Type 1 where
  pub Reference : Type 0
  pub Index : Type 0
  pub Image : Type 0
  pub ref_name : Reference → String
  pub default_spec : HostPlatform
  pub index : Reference → W → Result Index × W
  pub manifests : Index → Result (List Descriptor)
  pub image : Index → String → Result Image
  pub layers : Image → Result (List Layer)
  pub make_temp_dir : String → String → W → Result String × W

abbrev pub generic : HostPlatform
generic = record {
  architecture = "";
  os = "generic";
  os_version = "";
  os_features = [];
  variant = "";
}

-- WithPlatforms
abbrev pub with_platforms : List Platform → List HostPlatform
with_platforms plats = map convert_platform plats

module _ {W : Type 0} (registry : Registry W) (matcher : Matcher) (disk : Disk W) where
  -- the platforms that Pull looks for, unless an option sets them
  abbrev pub pull_platforms : Option (List Platform) → List HostPlatform
  pull_platforms none = registry.default_spec ∷ generic ∷ []
  pull_platforms (some plats) = with_platforms plats

  -- the image of a manifest, if one was found
  abbrev pub image_of :
      List HostPlatform → registry.Index → Option Descriptor → Result registry.Image
  image_of find_for idx none =
      err (errorf "didn't find an image matching platform %s" (describe_platforms find_for ∷ []))
  image_of find_for idx (some d) = elim (registry.image idx d.digest) [
    | ok image ↦ ok image
    | err e ↦ err (errorf "fetching image for manifest %v: %v" (d.digest ∷ []))
  ]

  -- fetchImage
  unfoldable pub fetch_image :
      registry.Reference → List HostPlatform → W → Result registry.Image × W
  unfolding find_manifest_for_platforms describe_platforms
  fetch_image ref find_for w =
      and_then (wrapped "fetching index: %w" [] (registry.index ref w)) λ idx w1.
        and_then (wrapping "getting index manifest: %w" [] (registry.manifests idx), w1)
          λ manifests w2.
            (image_of find_for idx (find_manifest_for_platforms matcher find_for manifests), w2)

  -- Pull
  unfoldable pub pull : String → registry.Reference → Option (List Platform) → W → Result String × W
  unfolding fetch_image write_layers
  pull cache_dir ref plats w =
      let name = registry.ref_name ref ∷ [] in
      and_then (wrapped "fetching OCI image %q: %w" name (fetch_image ref (pull_platforms plats) w))
        λ image w1.
          and_then (wrapping "getting layers for OCI image %q: %w" name (registry.layers image), w1)
            λ layers w2.
              and_then
                (wrapped "creating download directory for OCI image %q: %w" name
                  (registry.make_temp_dir cache_dir "oci-image-*" w2))
                λ step_dir w3.
                  and_then
                    (wrapped "writing layers for OCI image %q: %w" name
                      (write_layers disk layers step_dir w3))
                    λ u w4. (ok step_dir, w4)
