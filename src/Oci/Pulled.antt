-- ===== src/Oci/Pulled.antt =====
-- oci/fetch/api/client.go: which image of an index is fetched.
use native.Mathlib.Omega.{arith}
use step_runner.Common.{
  ◌≡◌, refl, ap, ◌∙◌, none, some, Option-cases, List, [], ◌∷◌, ◌++◌, All, ok, Result-cases, inl,
  inr,
}
use step_runner.Oci.Manifests.{
  HostPlatform, Descriptor, Matcher, find_manifest_for_platform, find_manifest_for_platforms,
}
use step_runner.Oci.Preferred.{IsBest, IsStrict, find_manifest_for_platform-IsBest}
use step_runner.Oci.Layers.{Disk}
use step_runner.Oci.Pull.{Registry, fetch_image}

-- The manifest fits a platform of the list, none that fits it is preferred, and none fits an earlier platform.
pub record IsFirst (m : Matcher) (find_for : List HostPlatform) (manifests : List Descriptor)
    (d : Descriptor) : Type 0 where
  pub earlier : List HostPlatform
  pub platform : HostPlatform
  pub later : List HostPlatform
  pub parts : find_for ≡ earlier ++ platform ∷ later
  pub no_earlier : All (λ p. IsBest m p none manifests) earlier
  pub best : IsBest m platform (some d) manifests

module _ (m : Matcher) (strict : IsStrict m) where
  find_manifest_for_platforms-IsFirst :
      (find_for : List HostPlatform) (manifests : List Descriptor) (d : Descriptor)
      → find_manifest_for_platforms m find_for manifests ≡ some d
      → IsFirst m find_for manifests d
  unfolding find_manifest_for_platforms
  find_manifest_for_platforms-IsFirst [] manifests d h = cc
  find_manifest_for_platforms-IsFirst (p ∷ find_for) manifests d h =
      let found = find_manifest_for_platform-IsBest m strict p manifests in
      elim (Option-cases (find_manifest_for_platform m p manifests)) [
        | inl nothing ↦
            let rest = find_manifest_for_platforms-IsFirst find_for manifests d (ground arith) in
            record {
              earlier = p ∷ rest.earlier;
              platform = rest.platform;
              later = rest.later;
              parts = ap (λ (t : List HostPlatform). p ∷ t) rest.parts;
              no_earlier = (rw nothing at found, rest.no_earlier);
              best = rest.best;
            }
        | inr (d', q) ↦
            let same : d' ≡ d = ground arith in
            record {
              earlier = [];
              platform = p;
              later = find_for;
              parts = refl;
              no_earlier = tt;
              best = rw same at (rw q at found);
            }
      ]

  module _ {W : Type 0} (registry : Registry W) (disk : Disk W) where
    -- An image that is fetched for a list of platforms is that of a manifest of the index, which fits a
    -- platform of the list; no manifest that fits the platform is preferred to it, and none fits a
    -- platform before it in the list. This is if the matcher's order is irreflexive and transitive.
    pub fetch_image-IsFirst :
        (ref : registry.Reference) (find_for : List HostPlatform) (w w' : W)
        (image : registry.Image)
        → fetch_image registry m disk ref find_for w ≡ (ok image, w')
        → (idx : registry.Index) × (manifests : List Descriptor) × (d : Descriptor)
          × (registry.index ref w ≡ (ok idx, w'))
          × (registry.manifests idx ≡ ok manifests)
          × (registry.image idx d.digest ≡ ok image)
          × IsFirst m find_for manifests d
    unfolding fetch_image
    fetch_image-IsFirst ref find_for w w' image h = elim (Result-cases (registry.index ref w).0) [
      | inr (e, q) ↦ absurd (ground arith)
      | inl (idx, q) ↦ elim (Result-cases (registry.manifests idx)) [
        | inr (e, q') ↦ absurd (ground arith)
        | inl (manifests, q') ↦
            elim (Option-cases (find_manifest_for_platforms m find_for manifests)) [
              | inl nothing ↦ absurd (ground arith)
              | inr (d, found) ↦ elim (Result-cases (registry.image idx d.digest)) [
                | inr (e, q'') ↦ absurd (ground arith)
                | inl (got, q'') ↦
                    let same : got ≡ image = ground arith in
                    (
                      idx,
                      manifests,
                      d,
                      ground arith,
                      q',
                      q'' ∙ ap ok same,
                      find_manifest_for_platforms-IsFirst find_for manifests d found,
                    )
              ]
            ]
      ]
    ]
