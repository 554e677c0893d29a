-- ===== src/Oci/Released.antt =====
-- What is released.
use step_runner.Common.{
  ◌≡◌, refl, sym, ap, List, [], ◌∷◌, ◌++◌, filter, Error, ok, err, arith, inl, inr, Bool-cases,
  Result-cases,
}
use step_runner.Oci.Artifacts.{Platform, Artifact, for_platform, platforms, add}
use step_runner.Oci.Releaser.{
  Factory, build_image_layers, build_images, make_image_index, push_image_index, already_published,
  release,
}

module _ {W : Type 0} (factory : Factory W) where
  -- Layers that were made of files, one of each, in their order.
  pub data Layered : List Artifact → List factory.Layer → W → W → Type 0 where
    no_files : {w : W} → Layered [] [] w w
    one_file :
        {a : Artifact} {files : List Artifact} {layer : factory.Layer} {layers : List factory.Layer}
        {w w1 w' : W}
        → factory.build_layer a w ≡ (ok layer, w1)
        → Layered files layers w1 w'
        → Layered (a ∷ files) (layer ∷ layers) w w'

  -- The files of an image for a platform: the common ones, and behind them those for the platform.
  abbrev pub files_for : List Artifact → List Artifact → Platform → List Artifact
  files_for common platform_specific p =
      common ++ filter (λ a. factory.equals a.platform p) platform_specific

  -- Images that were built for platforms, one for each, of the layers of its files.
  pub data Built (common platform_specific : List Artifact)
      : List Platform → List (factory.Image × Platform) → W → W → Type 0 where
    no_platforms : {w : W} → Built common platform_specific [] [] w w
    one_platform :
        {p : Platform} {ps : List Platform} {image : factory.Image}
        {images : List (factory.Image × Platform)} {layers : List factory.Layer} {w w1 w2 w' : W}
        → Layered (files_for common platform_specific p) layers w w1
        → factory.build_image layers w1 ≡ (ok image, w2)
        → Built common platform_specific ps images w2 w'
        → Built common platform_specific (p ∷ ps) ((image, p) ∷ images) w w'

  for_platform-filter :
      (p : Platform) (files : List Artifact)
      → for_platform factory.equals p files ≡ filter (λ a. factory.equals a.platform p) files
  unfolding for_platform
  for_platform-filter p [] = refl
  for_platform-filter p (a ∷ files) =
      let rest = for_platform-filter p files in
      elim (Bool-cases (factory.equals a.platform p)) [
        | inl q ↦ rw q (ap (λ t. a ∷ t) rest)
        | inr q ↦ rw q rest
      ]

  build_image_layers-Layered :
      (files : List Artifact) (layers : List factory.Layer) (w w' : W)
      → build_image_layers factory files w ≡ (ok layers, w')
      → Layered files layers w w'
  unfolding build_image_layers
  build_image_layers-Layered [] layers w w' h =
      let none_made : [] ≡ layers = ground arith in
      let same : w ≡ w' = ground arith in rw (← none_made, ← same) no_files
  build_image_layers-Layered (a ∷ files) layers w w' h =
      let built = factory.build_layer a w in
      elim (Result-cases (built.0)) [
        | inr (e, b) ↦ absurd (ground arith)
        | inl (layer, b) ↦
            let others = build_image_layers factory files (built.1) in
            elim (Result-cases (others.0)) [
              | inr (e, o) ↦ absurd (ground arith)
              | inl (rest, o) ↦
                  let below =
                    build_image_layers-Layered files rest (built.1) (others.1)
                      (ap (λ r. (r, others.1)) o) in
                  let all_made : layer ∷ rest ≡ layers = ground arith in
                  let same : others.1 ≡ w' = ground arith in
                  rw (← all_made, ← same) (one_file (ap (λ r. (r, built.1)) b) below)
            ]
      ]

  build_images-Built :
      (common platform_specific : List Artifact) (ps : List Platform)
      (images : List (factory.Image × Platform)) (w w' : W)
      → build_images factory common platform_specific ps w ≡ (ok images, w')
      → Built common platform_specific ps images w w'
  unfolding build_images
  build_images-Built common platform_specific [] images w w' h =
      let none_made : [] ≡ images = ground arith in
      let same : w ≡ w' = ground arith in rw (← none_made, ← same) no_platforms
  build_images-Built common platform_specific (p ∷ ps) images w w' h =
      let files = add common (for_platform factory.equals p platform_specific) in
      let layered = build_image_layers factory files w in
      elim (Result-cases (layered.0)) [
        | inr (e, l) ↦ absurd (ground arith)
        | inl (layers, l) ↦
            let built = factory.build_image layers (layered.1) in
            elim (Result-cases (built.0)) [
              | inr (e, b) ↦ absurd (ground arith)
              | inl (image, b) ↦
                  let others = build_images factory common platform_specific ps (built.1) in
                  elim (Result-cases (others.0)) [
                    | inr (e, o) ↦ absurd (ground arith)
                    | inl (rest, o) ↦
                        let below =
                          build_images-Built common platform_specific ps rest (built.1) (others.1)
                            (ap (λ r. (r, others.1)) o) in
                        let all_made : (image, p) ∷ rest ≡ images = ground arith in
                        let same : others.1 ≡ w' = ground arith in
                        let of_files =
                          build_image_layers-Layered files layers w (layered.1)
                            (ap (λ r. (r, layered.1)) l) in
                        let own = rw (for_platform-filter p platform_specific) at of_files in
                        rw (← all_made, ← same) (one_platform own (ap (λ r. (r, built.1)) b) below)
                  ]
            ]
      ]

  -- What a release that succeeded did: asking the registry for the reference failed, an image was built for each platform of the files, the index of these images was written
  -- under the reference, and behind that the files that were made are removed.
  pub record IsReleased (ref : factory.Reference) (common platform_specific : List Artifact)
      (index : factory.Index) (w w' : W) : Type 0 where
    pub images : List (factory.Image × Platform)
    pub built : W
    pub pushed : W
    pub was_free : (e : Error) × (factory.head ref w ≡ err e)
    pub is_built :
        Built common platform_specific (platforms factory.equals platform_specific) images w built
    pub is_index : index ≡ factory.build_image_index images
    pub is_pushed :
        factory.write_index ref (factory.build_image_index images) built ≡ (ok tt, pushed)
    pub is_clean : w' ≡ factory.clean_up pushed

  push_image_index-write_index :
      (ref : factory.Reference) (index : factory.Index) (w w' : W)
      → push_image_index factory ref index w ≡ (ok tt, w')
      → factory.write_index ref index w ≡ (ok tt, w')
  unfolding push_image_index
  push_image_index-write_index ref index w w' h = elim (Result-cases (factory.digest index)) [
    | inr (e, q) ↦ absurd (ground arith)
    | inl (d, q) ↦ elim (Result-cases ((factory.write_index ref index w).0)) [
      | inr (e, r) ↦ absurd (ground arith)
      | inl (u, r) ↦ ground arith
    ]
  ]

  -- When a release succeeds, remote.Head returned an error for the reference, whatever its reason; one image was built for each of the platforms of the files, in their order, of a
  -- layer for each common file and for each file of the platform; the index of these images was
  -- written under the reference and is what is returned; and the files that were made are removed.
  pub release-IsReleased :
      (ref : factory.Reference) (common platform_specific : List Artifact) (index : factory.Index)
      (w w' : W)
      → release factory ref common platform_specific w ≡ (ok index, w')
      → IsReleased ref common platform_specific index w w'
  unfolding release make_image_index already_published
  release-IsReleased ref common platform_specific index w w' h =
      elim (Result-cases (factory.head ref w)) [
        | inl (found, q) ↦ absurd (ground arith)
        | inr (e, q) ↦
            let ps = platforms factory.equals platform_specific in
            let made = build_images factory common platform_specific ps w in
            elim (Result-cases (made.0)) [
              | inr (e, m) ↦ absurd (ground arith)
              | inl (images, m) ↦
                  let new_index = factory.build_image_index images in
                  let pushed = push_image_index factory ref new_index (made.1) in
                  elim (Result-cases (pushed.0)) [
                    | inr (e, r) ↦ absurd (ground arith)
                    | inl (u, r) ↦
                        let same : new_index ≡ index = ground arith in
                        let wrote =
                          push_image_index-write_index ref new_index (made.1) (pushed.1)
                            (ap (λ t. (t, pushed.1)) r) in
                        record {
                          images = images;
                          built = made.1;
                          pushed = pushed.1;
                          was_free = (e, q);
                          is_built =
                              build_images-Built common platform_specific ps images w (made.1)
                                (ap (λ t. (t, made.1)) m);
                          is_index = sym same;
                          is_pushed = wrote;
                          is_clean = ground arith;
                        }
                  ]
            ]
      ]
