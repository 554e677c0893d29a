-- ===== src/Oci/Unique.antt =====
-- The platforms that images are built for.
use step_runner.Common.{
  if◌then◌else◌, ◌≡◌, refl, ◌∙◌, Bool, true, false, not, ◌&&◌, ◌||◌, List, [], ◌∷◌, ◌++◌, all,
  arith, inl, inr, Bool-cases,
}
use step_runner.Oci.Artifacts.{Platform, Artifact, is_seen, platforms_from, platforms}
use step_runner.Oci.Partition.{Equality}

module _ (eq : Equality) where
  -- No platform of the list is equal to one behind it.
  abbrev pub is_unique : List Platform → Bool
  is_unique [] = true
  is_unique (p ∷ ps) = not (is_seen eq.equals p ps) && is_unique ps

  -- Each artifact is for a platform that is equal to one of the list.
  abbrev pub is_covered : List Platform → List Artifact → Bool
  is_covered ps = all (λ a. is_seen eq.equals a.platform ps)

  equals_sym : (p q : Platform) → eq.equals p q ≡ true → eq.equals q p ≡ true
  equals_sym p q h = eq.equals_congr p q q h ∙ eq.equals_self q

  is_seen-append :
      (p x : Platform) (ps : List Platform)
      → is_seen eq.equals p (ps ++ x ∷ []) ≡ (is_seen eq.equals p ps || eq.equals p x)
  unfolding is_seen
  is_seen-append p x [] = ground arith
  is_seen-append p x (q ∷ ps) = ground (arith, is_seen-append p x ps)

  is_unique-append :
      (x : Platform) (ps : List Platform)
      → is_unique ps ≡ true
      → is_seen eq.equals x ps ≡ false
      → is_unique (ps ++ x ∷ []) ≡ true
  unfolding is_seen
  is_unique-append x [] h new = ground arith
  is_unique-append x (p ∷ ps) h new =
      ground (arith, is_seen-append p x ps, equals_sym p x, is_unique-append x ps)

  is_seen-kept :
      (p x : Platform) (ps : List Platform)
      → is_seen eq.equals p ps ≡ true
      → is_seen eq.equals p (ps ++ x ∷ []) ≡ true
  is_seen-kept p x ps h = rw (is_seen-append p x ps, h) refl

  is_seen-platforms_from :
      (p : Platform) (ps : List Platform) (artifacts : List Artifact)
      → is_seen eq.equals p ps ≡ true
      → is_seen eq.equals p (platforms_from eq.equals ps artifacts) ≡ true
  unfolding platforms_from
  is_seen-platforms_from p ps [] h = h
  is_seen-platforms_from p ps (a ∷ artifacts) h =
      elim (Bool-cases (is_seen eq.equals a.platform ps)) [
        | inl q ↦ rw q (is_seen-platforms_from p ps artifacts h)
        | inr q ↦ rw q (
            is_seen-platforms_from p (ps ++ a.platform ∷ []) artifacts
              (is_seen-kept p a.platform ps h))
      ]

  next_platforms : Artifact → List Platform → List Platform
  next_platforms a ps = if is_seen eq.equals a.platform ps then ps else ps ++ a.platform ∷ []

  next-is_unique :
      (a : Artifact) (ps : List Platform)
      → is_unique ps ≡ true
      → (is_unique (next_platforms a ps) ≡ true)
        × (is_seen eq.equals a.platform (next_platforms a ps) ≡ true)
  unfolding next_platforms
  next-is_unique a ps h = elim (Bool-cases (is_seen eq.equals a.platform ps)) [
    | inl q ↦ rw q (h, q)
    | inr q ↦
        let here : is_seen eq.equals a.platform (ps ++ a.platform ∷ []) ≡ true =
          rw (is_seen-append a.platform a.platform ps, q, eq.equals_self a.platform) refl in
        rw q (is_unique-append a.platform ps h q, here)
  ]

  covered_first :
      (a : Artifact) (artifacts : List Artifact) (ps : List Platform)
      → is_seen eq.equals a.platform ps ≡ true
      → is_covered ps artifacts ≡ true
      → is_covered ps (a ∷ artifacts) ≡ true
  covered_first a artifacts ps first rest = ground arith

  platforms_from-is_unique :
      (ps : List Platform) (artifacts : List Artifact)
      → is_unique ps ≡ true
      → (is_unique (platforms_from eq.equals ps artifacts) ≡ true)
        × (is_covered (platforms_from eq.equals ps artifacts) artifacts ≡ true)
  unfolding platforms_from next_platforms
  platforms_from-is_unique ps [] h = (h, refl)
  platforms_from-is_unique ps (a ∷ artifacts) h =
      let next = next_platforms a ps in
      let (next_unique, here) = next-is_unique a ps h in
      let (unique, covered) = platforms_from-is_unique next artifacts next_unique in
      let first = is_seen-platforms_from a.platform next artifacts here in
      (unique, covered_first a artifacts (platforms_from eq.equals next artifacts) first covered)

  -- If the equality of platforms is reflexive, and equal platforms are equal to the same, then of
  -- the platforms of some artifacts no two are equal, and each artifact is for one of them.
  pub platforms-is_unique :
      (artifacts : List Artifact)
      → (is_unique (platforms eq.equals artifacts) ≡ true)
        × (is_covered (platforms eq.equals artifacts) artifacts ≡ true)
  unfolding platforms
  platforms-is_unique artifacts = platforms_from-is_unique [] artifacts refl
