-- ===== src/Promote/Latest.antt =====
-- What the tag latest names after any promotions.
use step_runner.Common.{
  eq_refl, String, ◌≡◌, refl, true, false, List, [], ◌∷◌, ok, str_eq, eq_iff, arith, ap, sym, ◌∙◌,
  inl, inr, Bool-cases, Result-cases,
}
use step_runner.Promote.Version.{Version, parse_semantic_version, parse_semantic_versions, full_tag}
use step_runner.Promote.Newest.{is_later, is_newest, any_version}
use step_runner.Promote.RoundTrip.{IsWord, parse_semantic_version-full_tag}
use step_runner.Promote.ImageRef.{Names}
use step_runner.Promote.Remote.{Registry}
use step_runner.Promote.Repository.{has_tag, Repository}
use step_runner.Promote.Promoted.{
  IsPromoted, promote-IsPromoted, full_tag-IsPromoted, latest-IsPromoted, Published, nothing,
  promoted,
}

newest_rest :
    (v : Version) (t : String) (ts : List String)
    → is_newest any_version v (parse_semantic_versions (t ∷ ts)) ≡ true
    → is_newest any_version v (parse_semantic_versions ts) ≡ true
unfolding parse_semantic_versions
newest_rest v t ts h = elim (Result-cases (parse_semantic_version t)) [
  | inl (e, q) ↦ ground arith
  | inr (e, q) ↦ ground arith
]

-- A newest version is not before any version that a tag names, and the other way round.
is_later-newest :
    (v e : Version) (tag : String) (ts : List String)
    → is_newest any_version v (parse_semantic_versions ts) ≡ true
    → has_tag tag ts ≡ true
    → parse_semantic_version tag ≡ ok e
    → is_later e v ≡ false
unfolding parse_semantic_versions
is_later-newest v e tag [] newest h p = cc
is_later-newest v e tag (t ∷ ts) newest h p = elim (Bool-cases (str_eq t tag)) [
  | inl q ↦
      let parsed : parse_semantic_version t ≡ ok e =
        ap parse_semantic_version ((eq_iff t tag).0 q) ∙ p in
      ground arith
  | inr q ↦ is_later-newest v e tag ts (newest_rest v t ts newest) (ground arith) p
]

newest-is_later :
    (v : Version) (ts : List String)
    → ((tag : String) (e : Version)
        → has_tag tag ts ≡ true
        → parse_semantic_version tag ≡ ok e
        → is_later e v ≡ false)
    → is_newest any_version v (parse_semantic_versions ts) ≡ true
unfolding parse_semantic_versions
newest-is_later v [] h = refl
newest-is_later v (t ∷ ts) h =
    let rest : is_newest any_version v (parse_semantic_versions ts) ≡ true =
      newest-is_later v ts (λ tag e m p. h tag e (ground arith) p) in
    elim (Result-cases (parse_semantic_version t)) [
      | inl (e, q) ↦
          let first : is_later e v ≡ false = h t e (rw (eq_refl t) refl) q in ground arith
      | inr (e, q) ↦ ground arith
    ]

version_of_full_tag : (x v : Version) → IsWord x → IsWord v → full_tag x ≡ full_tag v → x ≡ v
version_of_full_tag x v word v_word h =
    let e : ok x ≡ ok v =
      sym (parse_semantic_version-full_tag x word)
      ∙ ap parse_semantic_version h
      ∙ parse_semantic_version-full_tag v v_word in
    cc

same_full_tag :
    (x v : Version) → is_later x v ≡ false → is_later v x ≡ false → full_tag x ≡ full_tag v
unfolding full_tag
same_full_tag x v h k =
    let major : x.major ≡ v.major = ground arith in
    let minor : x.minor ≡ v.minor = ground arith in
    let patch : x.patch ≡ v.patch = ground arith in cc

module _ {W : Type 0} {ns : Names} {r : Registry ns W} (repo : Repository ns r) where
  -- No tag is lost.
  kept :
      (x : Version) (c : repo.Content) (w w' : W) (u : String)
      → IsPromoted repo x c w w'
      → has_tag u (repo.tags w) ≡ true
      → has_tag u (repo.tags w') ≡ true
  kept x c w w' u p h =
      rw (repo.tags-content_at u w', p u) (let e = repo.tags-content_at u w in ground arith)

  newest-kept :
      (x v : Version) (c : repo.Content) (w w' : W)
      → IsPromoted repo x c w w'
      → is_newest any_version v (parse_semantic_versions (repo.tags w')) ≡ true
      → is_newest any_version v (parse_semantic_versions (repo.tags w)) ≡ true
  newest-kept x v c w w' p h =
      newest-is_later v (repo.tags w)
        (λ tag e m q. is_later-newest v e tag (repo.tags w') h (kept x c w w' tag p m) q)

  -- The newest version that a tag names is the one that latest names.
  abbrev pub NamesNewest : W → Type 0
  NamesNewest w =
      (v : Version)
      → IsWord v
      → has_tag (full_tag v) (repo.tags w) ≡ true
      → is_newest any_version v (parse_semantic_versions (repo.tags w)) ≡ true
      → repo.content_at "latest" w ≡ repo.content_at (full_tag v) w

  has-full_tag :
      (x : Version) (c : repo.Content) (w w' : W)
      → IsPromoted repo x c w w'
      → has_tag (full_tag x) (repo.tags w') ≡ true
  has-full_tag x c w w' p =
      rw
        (
          repo.tags-content_at (full_tag x) w',
          full_tag-IsPromoted repo x x c w w' p,
          eq_refl (full_tag x),
        )
        refl

  not_newest :
      (x v : Version) (c : repo.Content) (w w' : W)
      → IsPromoted repo x c w w'
      → IsWord x
      → IsWord v
      → has_tag (full_tag v) (repo.tags w) ≡ true
      → is_newest any_version v (parse_semantic_versions (repo.tags w')) ≡ true
      → str_eq (full_tag x) (full_tag v) ≡ false
      → is_newest any_version x (parse_semantic_versions (repo.tags w)) ≡ false
  not_newest x v c w w' p word v_word had newest differs =
      let x_read = parse_semantic_version-full_tag x word in
      let v_read = parse_semantic_version-full_tag v v_word in
      let before : is_later x v ≡ false =
        is_later-newest v x (full_tag x) _ newest (has-full_tag x c w w' p) x_read in
      elim (Bool-cases (is_newest any_version x (parse_semantic_versions (repo.tags w)))) [
        | inl q ↦
            let behind : is_later v x ≡ false =
              is_later-newest x v (full_tag v) (repo.tags w) q had v_read in
            let equal = (eq_iff (full_tag x) (full_tag v)).1 (same_full_tag x v before behind) in
            absurd (let d = differs in cc)
        | inr q ↦ q
      ]

  IsPromoted-NamesNewest :
      (x : Version) (c : repo.Content) (w w' : W)
      → IsPromoted repo x c w w'
      → IsWord x
      → NamesNewest w
      → NamesNewest w'
  IsPromoted-NamesNewest x c w w' p word h v v_word has newest =
      let old_newest = newest-kept x v c w w' p newest in
      let old_tag = repo.tags-content_at (full_tag v) w in
      let new_tag = repo.tags-content_at (full_tag v) w' in
      let named = full_tag-IsPromoted repo x v c w w' p in
      rw (latest-IsPromoted repo x c w w' p, named)
        elim (Bool-cases (str_eq (full_tag x) (full_tag v))) [
          | inl q ↦
              let same : x ≡ v = version_of_full_tag x v word v_word ((eq_iff _ _).0 q) in
              let x_newest : is_newest any_version x (parse_semantic_versions (repo.tags w))
                  ≡ true =
                rw same old_newest in
              rw (x_newest, q) refl
          | inr q ↦
              let had : has_tag (full_tag v) (repo.tags w) ≡ true = ground arith in
              rw (not_newest x v c w w' p word v_word had newest q, q) (h v v_word had old_newest)
        ]

  -- After any promotions that all succeeded, of versions of 64-bit numbers without a release, to a
  -- repository that had no tags, latest names the same as the tag of the newest version that the
  -- repository has a tag of. A tag that is written is relied on to name what was written, other tags
  -- to keep theirs, a reference that is copied from to keep what it names, and the list to have the
  -- tags that name something.
  pub Published-NamesNewest :
      {w : W} (v : Version)
      → Published repo w
      → IsWord v
      → has_tag (full_tag v) (repo.tags w) ≡ true
      → is_newest any_version v (parse_semantic_versions (repo.tags w)) ≡ true
      → repo.content_at "latest" w ≡ repo.content_at (full_tag v) w
  Published-NamesNewest {w} v (nothing e) word has newest =
      absurd (let h = has in let t = ap (has_tag (full_tag v)) e in cc)
  Published-NamesNewest v (promoted {w} {w'} x before p) word has newest =
      let (c, done) = promote-IsPromoted repo x w w' p in
      IsPromoted-NamesNewest x c w w' done p.is_word (λ u. Published-NamesNewest u before) v word
        has newest
