-- ===== src/Oci/Preferred.antt =====
-- Which manifest of an index is fetched.
use mathlib.Core.List.{append_assoc, append-nil}
use step_runner.Common.{
  if◌then◌else◌, ◌≡◌, Bool, true, false, ◌&&◌, Option, none, some, List, [], ◌∷◌, ◌++◌, All,
  All-map, All-concat, arith, inl, inr, Bool-cases,
}
use step_runner.Oci.Manifests.{
  HostPlatform, Descriptor, Matcher, convert_platform, is_better, find_manifest_from,
  find_manifest_for_platform,
}

abbrev pub fits : Matcher → HostPlatform → Descriptor → Bool
fits m p d = m.matches p (convert_platform d.platform)

abbrev pub preferred : Matcher → HostPlatform → Descriptor → Descriptor → Bool
preferred m p d e = m.less p (convert_platform d.platform) (convert_platform e.platform)

-- What is relied on of the order of a matcher: it is irreflexive and transitive.
pub record IsStrict (m : Matcher) : Type 0 where
  pub irreflexive : (p a : HostPlatform) → m.less p a a ≡ false
  pub transitive :
      (p a b c : HostPlatform) → m.less p a b ≡ true → m.less p b c ≡ true → m.less p a c ≡ true

-- No manifest of the list that fits is preferred to the one given; without one, none fits.
abbrev pub IsBest : Matcher → HostPlatform → Option Descriptor → List Descriptor → Type 0
IsBest m p none manifests = All (λ d. fits m p d ≡ false) manifests
IsBest m p (some best) manifests =
    (fits m p best ≡ true) × All (λ d. (fits m p d && preferred m p d best) ≡ false) manifests

module _ (m : Matcher) (strict : IsStrict m) (p : HostPlatform) where
  better-IsBest :
      (best d : Descriptor) (manifests : List Descriptor)
      → preferred m p d best ≡ true
      → All (λ x. (fits m p x && preferred m p x best) ≡ false) manifests
      → All (λ x. (fits m p x && preferred m p x d) ≡ false) manifests
  better-IsBest best d manifests better h =
      All-map manifests
        (λ x none_better. elim (Bool-cases (preferred m p x d)) [
          | inl q ↦
              let e =
                strict.transitive p (convert_platform x.platform) (convert_platform d.platform)
                  (convert_platform best.platform) q better in
              ground arith
          | inr q ↦ ground arith
        ])
        h

  next-IsBest :
      (matched : Option Descriptor) (seen : List Descriptor) (d : Descriptor)
      → IsBest m p matched seen
      → IsBest m p
          (if fits m p d && is_better m p d matched then some d else matched)
          (seen ++ d ∷ [])
  next-IsBest none seen d h = elim (Bool-cases (fits m p d)) [
    | inl q ↦
        let self = strict.irreflexive p (convert_platform d.platform) in
        rw q (
          q,
          All-concat (λ x. (fits m p x && preferred m p x d) ≡ false) seen d
              (All-map seen (λ x unfit. ground arith) h) (ground arith),
        )
    | inr q ↦ rw q (All-concat (λ x. fits m p x ≡ false) seen d h q)
  ]
  next-IsBest (some best) seen d (is_fit, h) =
      elim (Bool-cases (fits m p d && preferred m p d best)) [
        | inl q ↦
            let self = strict.irreflexive p (convert_platform d.platform) in
            let fit : fits m p d ≡ true = ground arith in
            let better : preferred m p d best ≡ true = ground arith in
            rw q (
              fit,
              All-concat (λ x. (fits m p x && preferred m p x d) ≡ false) seen d
                  (better-IsBest best d seen better h) (ground arith),
            )
        | inr q ↦
            rw q (is_fit, All-concat (λ x. (fits m p x && preferred m p x best) ≡ false) seen d h q)
      ]

  find_manifest_from-IsBest :
      (matched : Option Descriptor) (seen manifests : List Descriptor)
      → IsBest m p matched seen
      → IsBest m p (find_manifest_from m p matched manifests) (seen ++ manifests)
  unfolding find_manifest_from
  find_manifest_from-IsBest matched seen [] h = rw (append-nil seen) h
  find_manifest_from-IsBest matched seen (d ∷ manifests) h =
      let rest =
        find_manifest_from-IsBest
          (if fits m p d && is_better m p d matched then some d else matched) (seen ++ d ∷ [])
          manifests (next-IsBest matched seen d h) in
      rw (← append_assoc seen (d ∷ []) manifests) rest

  -- If the matcher's order is irreflexive and transitive, the manifest that is found fits the
  -- platform, and no manifest that fits is preferred to it; if none is found, none fits.
  pub find_manifest_for_platform-IsBest :
      (manifests : List Descriptor)
      → IsBest m p (find_manifest_for_platform m p manifests) manifests
  unfolding find_manifest_for_platform
  find_manifest_for_platform-IsBest manifests = find_manifest_from-IsBest none [] manifests tt
