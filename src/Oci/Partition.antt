-- ===== src/Oci/Partition.antt =====
-- The files of each platform.
use mathlib.Core.List.{append-nil}
use step_runner.Common.{
  >>=-eq-ok, if◌then◌else◌, String, ◌≡◌, refl, ap, ◌∙◌, Bool, true, false, Option, none, some, List,
  [], ◌∷◌, ◌++◌, Map, split, ok, arith, inl, inr, Bool-cases, Result-cases,
}
use step_runner.Oci.Artifacts.{Platform, Artifact, for_platform}
use step_runner.Oci.BuildInputs.{
  PlatformInput, build_artifacts, platform_of, is_empty, add_platform, add_platforms,
  parse_platforms,
}

-- What is relied on of Platform.Equals: it is reflexive, and equal platforms are equal to the same.
pub record Equality : Type 0 where
  pub equals : Platform → Platform → Bool
  pub equals_self : (p : Platform) → equals p p ≡ true
  pub equals_congr : (p q r : Platform) → equals p q ≡ true → equals r p ≡ equals r q

nil_of_empty {ℓ} : {A : Type ℓ} (xs : List A) → is_empty xs ≡ true → xs ≡ []
nil_of_empty [] h = refl
nil_of_empty (x ∷ xs) h = cc

is_empty-append {ℓ} : {A : Type ℓ} (xs ys : List A) (x : A) → is_empty (xs ++ x ∷ ys) ≡ false
is_empty-append [] ys x = refl
is_empty-append (y ∷ xs) ys x = refl

module _ (eq : Equality) where
  for_platform-append :
      (p : Platform) (xs ys : List Artifact)
      → for_platform eq.equals p (xs ++ ys)
        ≡ for_platform eq.equals p xs ++ for_platform eq.equals p ys
  unfolding for_platform
  for_platform-append p [] ys = refl
  for_platform-append p (x ∷ xs) ys = ground (arith, for_platform-append p xs ys)

  for_platform-same :
      (p q : Platform) (xs : List Artifact)
      → eq.equals p q ≡ true
      → for_platform eq.equals p xs ≡ for_platform eq.equals q xs
  unfolding for_platform
  for_platform-same p q [] h = refl
  for_platform-same p q (x ∷ xs) h =
      ground (arith, eq.equals_congr p q x.platform h, for_platform-same p q xs h)

  -- The artifacts of one platform are all found under a platform that is equal, and none under another.
  for_platform-build_artifacts :
      (p q : Platform) (files : Map String) (own : List Artifact)
      → build_artifacts p files ≡ ok own
      → for_platform eq.equals q own ≡ (if eq.equals p q then own else [])
  unfolding for_platform build_artifacts
  for_platform-build_artifacts p q [] own h = ground arith
  for_platform-build_artifacts p q ((src, dst) ∷ files) own h =
      elim (Result-cases (build_artifacts p files)) [
        | inl (rest, r) ↦ ground (arith, for_platform-build_artifacts p q files rest r)
        | inr (e, r) ↦ absurd (ground arith)
      ]

  is_empty-build_artifacts :
      (p : Platform) (files : Map String) (own : List Artifact)
      → build_artifacts p files ≡ ok own
      → is_empty files ≡ false
      → is_empty own ≡ false
  unfolding build_artifacts
  is_empty-build_artifacts p [] own h some_files = cc
  is_empty-build_artifacts p ((src, dst) ∷ files) own h some_files =
      elim (Result-cases (build_artifacts p files)) [
        | inl (rest, r) ↦ ground arith
        | inr (e, r) ↦ absurd (ground arith)
      ]

  -- What adding a platform went through.
  add_platform-eq-ok :
      (name : String) (p : PlatformInput) (o : Option Platform) (acc more : List Artifact)
      → add_platform eq.equals name p o acc ≡ ok more
      → (platform : Platform) × (own : List Artifact) × (o ≡ some platform)
        × (is_empty (for_platform eq.equals platform acc) ≡ true)
        × (build_artifacts platform p.files ≡ ok own)
        × (more ≡ acc ++ own)
  unfolding add_platform
  add_platform-eq-ok name p none acc more h = cc
  add_platform-eq-ok name p (some platform) acc more h =
      elim (Bool-cases (is_empty (for_platform eq.equals platform acc))) [
        | inr q ↦ absurd (ground arith)
        | inl q ↦ elim (Result-cases (build_artifacts platform p.files)) [
          | inl (own, r) ↦ (platform, own, refl, q, r, ground arith)
          | inr (e, r) ↦ absurd (ground arith)
        ]
      ]

  -- A platform that has files keeps just these when another platform is added.
  for_platform-add :
      (q platform : Platform) (files : Map String) (acc own : List Artifact)
      → is_empty (for_platform eq.equals platform acc) ≡ true
      → build_artifacts platform files ≡ ok own
      → is_empty (for_platform eq.equals q acc) ≡ false
      → for_platform eq.equals q (acc ++ own) ≡ for_platform eq.equals q acc
  for_platform-add q platform files acc own free built some_files =
      elim (Bool-cases (eq.equals platform q)) [
        | inl same ↦ absurd (let e = for_platform-same platform q acc same in ground arith)
        | inr other ↦
            let of_own : for_platform eq.equals q own ≡ [] =
              (let e = for_platform-build_artifacts platform q files own built in ground arith) in
            for_platform-append q acc own
            ∙ ap (λ t. for_platform eq.equals q acc ++ t) of_own
            ∙ append-nil (for_platform eq.equals q acc)
      ]

  own_files :
      (platform : Platform) (files : Map String) (acc own : List Artifact)
      → is_empty (for_platform eq.equals platform acc) ≡ true
      → build_artifacts platform files ≡ ok own
      → for_platform eq.equals platform (acc ++ own) ≡ own
  own_files platform files acc own free built =
      let none_before : for_platform eq.equals platform acc ≡ [] =
        nil_of_empty (for_platform eq.equals platform acc) free in
      let of_own : for_platform eq.equals platform own ≡ own =
        (let e = for_platform-build_artifacts platform platform files own built in
          let self = eq.equals_self platform in ground arith) in
      for_platform-append platform acc own
      ∙ ap (λ t. t ++ for_platform eq.equals platform own) none_before
      ∙ of_own

  for_platform-add_platforms :
      (q : Platform) (acc res : List Artifact) (parsed : Map PlatformInput)
      → add_platforms eq.equals acc parsed ≡ ok res
      → is_empty (for_platform eq.equals q acc) ≡ false
      → for_platform eq.equals q res ≡ for_platform eq.equals q acc
  unfolding add_platforms
  for_platform-add_platforms q acc res [] h some_files = ground arith
  for_platform-add_platforms q acc res ((name, p) ∷ parsed) h some_files =
      let o = platform_of (split b'/' name) p in
      let (more, added, rest) =
        >>=-eq-ok (add_platform eq.equals name p o acc) (λ m. add_platforms eq.equals m parsed) h in
      let (platform, own, is_platform, free, built, same) =
        add_platform-eq-ok name p o acc more added in
      let kept : for_platform eq.equals q more ≡ for_platform eq.equals q acc =
        ap (for_platform eq.equals q) same
        ∙ for_platform-add q platform p.files acc own free built some_files in
      for_platform-add_platforms q more res parsed rest (rw kept some_files) ∙ kept

  add_platforms-own :
      (before behind : Map PlatformInput) (name : String) (p : PlatformInput)
      (acc res : List Artifact)
      → add_platforms eq.equals acc (before ++ (name, p) ∷ behind) ≡ ok res
      → is_empty p.files ≡ false
      → (platform : Platform) × (own : List Artifact) × (platform_of (split b'/' name) p
          ≡ some platform)
        × (build_artifacts platform p.files ≡ ok own)
        × (for_platform eq.equals platform res ≡ own)
  unfolding add_platforms
  add_platforms-own [] behind name p acc res h has_files =
      let o = platform_of (split b'/' name) p in
      let (more, added, rest) =
        >>=-eq-ok (add_platform eq.equals name p o acc) (λ m. add_platforms eq.equals m behind) h in
      let (platform, own, is_platform, free, built, same) =
        add_platform-eq-ok name p o acc more added in
      let found : for_platform eq.equals platform more ≡ own =
        ap (for_platform eq.equals platform) same ∙ own_files platform p.files acc own free built in
      let some_own = is_empty-build_artifacts platform p.files own built has_files in
      (
        platform,
        own,
        is_platform,
        built,
        for_platform-add_platforms platform more res behind rest (rw found some_own) ∙ found,
      )
  add_platforms-own ((key, v) ∷ before) behind name p acc res h has_files =
      let o = platform_of (split b'/' key) v in
      let (more, added, rest) =
        >>=-eq-ok (add_platform eq.equals key v o acc)
          (λ m. add_platforms eq.equals m (before ++ (name, p) ∷ behind)) h in
      add_platforms-own before behind name p more res rest has_files

  -- When the platforms of the input are accepted, a platform that has files is one of an os and an
  -- architecture, and the artifacts that are found for it are just those of its files. The
  -- equality of platforms is relied on to be reflexive, and equal platforms to be equal to the
  -- same.
  pub parse_platforms-own :
      (before behind : Map PlatformInput) (name : String) (p : PlatformInput) (res : List Artifact)
      → parse_platforms eq.equals (ok (before ++ (name, p) ∷ behind)) ≡ ok res
      → is_empty p.files ≡ false
      → (platform : Platform) × (own : List Artifact) × (platform_of (split b'/' name) p
          ≡ some platform)
        × (build_artifacts platform p.files ≡ ok own)
        × (for_platform eq.equals platform res ≡ own)
  unfolding parse_platforms
  parse_platforms-own before behind name p res h has_files =
      add_platforms-own before behind name p [] res
        (let e = is_empty-append before behind (name, p) in ground arith) has_files
