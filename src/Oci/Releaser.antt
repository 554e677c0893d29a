-- ===== src/Oci/Releaser.antt =====
-- oci/build/api/releaser.go: an image for each platform, and the index of them that is pushed.
use step_runner.Common.{
  if◌then◌else◌, is_ok, String, Bool, List, [], ◌∷◌, errorf, Result, ok, err, wrapping,
}
use step_runner.Oci.Artifacts.{Platform, Artifact, for_platform, platforms, add}

-- ImageFactory with Artifact.FS, and package remote of go-containerregistry.
pub record Factory (W : Type 0) : Type 1 where
  pub Reference : Type 0
  pub Layer : Type 0
  pub Image : Type 0
  pub Index : Type 0
  pub equals : Platform → Platform → Bool
  pub build_layer : Artifact → W → Result Layer × W
  pub build_image : List Layer → W → Result Image × W
  pub build_image_index : List (Image × Platform) → Index
  pub artifact_text : Artifact → String
  pub ref_text : Reference → String
  -- the descriptor, or an error
  pub head : Reference → W → Result String
  pub digest : Index → Result String
  pub write_index : Reference → Index → W → Result (Unit {0}) × W
  pub clean_up : W → W

module _ {W : Type 0} (factory : Factory W) where
  -- a call on the world, with what comes behind it unless it fails
  abbrev pub and_then : {A B : Type 0} → Result A × W → (A → W → Result B × W) → Result B × W
  and_then (err e, w) next = (err e, w)
  and_then (ok a, w) next = next a w

  abbrev wrapped : {A : Type 0} → String → List String → Result A × W → Result A × W
  wrapped format args (r, w) = (wrapping format args r, w)

  -- buildImageLayers
  unfoldable pub build_image_layers : List Artifact → W → Result (List factory.Layer) × W
  build_image_layers [] w = (ok [], w)
  build_image_layers (a ∷ artifacts) w =
      and_then (wrapped "%s: %w" (factory.artifact_text a ∷ []) (factory.build_layer a w))
        λ layer w1.
          and_then (build_image_layers artifacts w1) λ layers w2. (ok (layer ∷ layers), w2)

  -- the loop of buildImageIndex
  unfoldable pub build_images :
      List Artifact
      → List Artifact
      → List Platform
      → W
      → Result (List (factory.Image × Platform)) × W
  unfolding build_image_layers for_platform
  build_images common platform_specific [] w = (ok [], w)
  build_images common platform_specific (p ∷ ps) w =
      and_then (build_image_layers (add common (for_platform factory.equals p platform_specific)) w)
        λ layers w1. and_then (factory.build_image layers w1) λ image w2.
          and_then (build_images common platform_specific ps w2)
            λ images w3. (ok ((image, p) ∷ images), w3)

  -- buildImageIndex
  unfoldable pub make_image_index : List Artifact → List Artifact → W → Result factory.Index × W
  unfolding build_images platforms
  make_image_index common platform_specific w =
      and_then
        (build_images common platform_specific (platforms factory.equals platform_specific) w)
        λ images w1. (ok (factory.build_image_index images), w1)

  -- pushImageIndex
  unfoldable pub push_image_index : factory.Reference → factory.Index → W → Result (Unit {0}) × W
  push_image_index ref index w =
      and_then (wrapping "getting digest of image index: %w" [] (factory.digest index), w)
        λ digest w1. wrapped "push index image: %w" [] (factory.write_index ref index w1)

  abbrev cleaned : {A : Type 0} → Result A × W → Result A × W
  cleaned (r, w) = (r, factory.clean_up w)

  -- alreadyPublished, which drops the error
  unfoldable pub already_published : factory.Reference → W → Bool
  already_published ref w = is_ok (factory.head ref w)

  -- Release
  unfoldable pub release :
      factory.Reference → List Artifact → List Artifact → W → Result factory.Index × W
  unfolding make_image_index push_image_index already_published
  release remote_img_ref common platform_specific w = cleaned (
      if already_published remote_img_ref w
      then (err (errorf "image already published: %s" (factory.ref_text remote_img_ref ∷ [])), w)
      else and_then (make_image_index common platform_specific w)
          λ index w1. and_then (push_image_index remote_img_ref index w1) λ u w2. (ok index, w2))
