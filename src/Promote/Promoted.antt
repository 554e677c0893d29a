-- ===== src/Promote/Promoted.antt =====
-- promote/main.go: what a promotion that succeeds does to the tags of the repository.
use step_runner.Common.{
  eq_refl, if◌then◌else◌, String, ◌≡◌, ap, ◌∙◌, true, inl, inr, some, List, [], ◌∷◌, map, Result,
  ok, str_eq, eq_iff, arith, Result-cases,
}
use step_runner.Promote.Version.{
  Version, parse_semantic_versions, tags_to_update, full_tag, is_release_candidate,
}
use step_runner.Promote.Newest.{is_newest, any_version, tags_to_update-newest}
use step_runner.Promote.RoundTrip.{IsWord}
use step_runner.Promote.ImageRef.{Names, Flags, Inputs, parse_inputs, sem_ver_refs}
use step_runner.Promote.Remote.{Registry, list_tags, copy_all, promote_tags, promote}
use step_runner.Promote.Repository.{
  Repository, NamesAll, copy_all-cons, copy_all-tagged, copy_ref-IsSource, refs_for_tags-tagged,
  list_tags-tags,
}
use step_runner.Promote.Apart.{
  minor_tag-full_tag, major_tag-full_tag, latest-full_tag, full_tag-latest, minor_tag-latest,
  major_tag-latest,
}

module _ {W : Type 0} {ns : Names} {r : Registry ns W} (repo : Repository ns r) where
  -- A version was promoted: something is named by each tag that the version moves.
  abbrev pub IsPromoted : Version → repo.Content → W → W → Type 0
  IsPromoted v c w w' =
      NamesAll repo (tags_to_update v (parse_semantic_versions (repo.tags w))) c w w'

  copy_all-NamesAll :
      (from : ns.Reference) (t : String) (ts : List String) (w w' : W)
      → copy_all ns r from (map repo.tagged (t ∷ ts)) w ≡ (ok tt, w')
      → (c : repo.Content) × NamesAll repo (t ∷ ts) c w w'
  copy_all-NamesAll from t ts w w' h =
      let (w1, first, rest) = copy_all-cons repo from (repo.tagged t) (map repo.tagged ts) w w' h in
      let (c, source) = copy_ref-IsSource repo from (repo.tagged t) w w1 first in
      (c, copy_all-tagged repo from (t ∷ ts) c w w' source h)

  copy_all-IsPromoted :
      (from : ns.Reference) (v : Version) (vs : List Version) (w w' : W)
      → copy_all ns r from (map repo.tagged (tags_to_update v vs)) w ≡ (ok tt, w')
      → (c : repo.Content) × NamesAll repo (tags_to_update v vs) c w w'
  copy_all-IsPromoted from v vs w w' h =
      let all_tags = tags_to_update-newest v vs in
      let tagged = rw all_tags at h in
      rw all_tags (copy_all-NamesAll from (full_tag v) _ w w' tagged)

  sem_ver_refs-tagged :
      (ref : ns.Reference) (v : Version) (ts : List String) (refs : List ns.Reference)
      → ns.repository ref ≡ repo.name
      → v.release ≡ ""
      → sem_ver_refs ns (ref, v) ts ≡ ok refs
      → refs ≡ map repo.tagged (tags_to_update v (parse_semantic_versions ts))
  unfolding sem_ver_refs is_release_candidate
  sem_ver_refs-tagged ref v ts refs named plain h =
      refs_for_tags-tagged repo ref (tags_to_update v (parse_semantic_versions ts)) refs named
        (let q : str_eq v.release "" ≡ true = (eq_iff v.release "").1 plain in rw q at h)

  promote_tags-IsPromoted :
      (inputs : Inputs ns) (ts : List String) (w w' : W)
      → ns.repository (inputs.to_image_ref.0) ≡ repo.name
      → inputs.to_image_ref.1.release ≡ ""
      → ts ≡ repo.tags w
      → promote_tags ns r inputs (ok ts) w ≡ (ok tt, w')
      → (c : repo.Content) × IsPromoted inputs.to_image_ref.1 c w w'
  unfolding promote_tags
  promote_tags-IsPromoted inputs ts w w' named plain listed h =
      let v = inputs.to_image_ref.1 in
      elim (Result-cases (sem_ver_refs ns inputs.to_image_ref ts)) [
        | inr (e, q) ↦ absurd (ground arith)
        | inl (refs, q) ↦
            let to_tags = sem_ver_refs-tagged inputs.to_image_ref.0 v ts refs named plain q in
            let copied : copy_all ns r inputs.from_image_ref refs w ≡ (ok tt, w') = ground arith in
            let (c, done) =
              copy_all-IsPromoted inputs.from_image_ref v (parse_semantic_versions ts) w w'
                (rw to_tags at copied) in
            (c, λ u. rw (← listed) (done u))
      ]

  -- A promotion that succeeds, of a version without a release, to the repository.
  pub record IsPromotion (v : Version) (w w' : W) : Type 0 where
    pub flags : Result (Flags ns)
    pub getenv : String → String
    pub inputs : Inputs ns
    pub parsed : parse_inputs ns flags getenv ≡ ok inputs
    pub to_repository : ns.repository (inputs.to_image_ref.0) ≡ repo.name
    pub of_version : inputs.to_image_ref.1 ≡ v
    pub is_word : IsWord v
    pub succeeds : promote ns r flags getenv w ≡ (ok tt, w')

  pub promote-IsPromoted :
      (v : Version) (w w' : W) → IsPromotion v w w' → (c : repo.Content) × IsPromoted v c w w'
  unfolding promote promote_tags
  promote-IsPromoted v w w' p =
      let name = ns.repository (p.inputs.to_image_ref.0) in
      let h : promote_tags ns r p.inputs (list_tags ns r name w) w ≡ (ok tt, w') =
        (let parsed = p.parsed in let done = p.succeeds in rw (parsed, promote) at done) in
      elim (Result-cases (list_tags ns r name w)) [
        | inr (e, q) ↦ absurd (ground arith)
        | inl (ts, q) ↦
            let listed = list_tags-tags repo w ts (rw p.to_repository at q) in
            let plain : p.inputs.to_image_ref.1.release ≡ "" =
              ap (λ (x : Version). x.release) p.of_version ∙ p.is_word.3 in
            let (c, done) =
              promote_tags-IsPromoted p.inputs ts w w' p.to_repository plain listed (rw q at h) in
            (c, rw p.of_version at done)
      ]

  pub full_tag-IsPromoted :
      (x v : Version) (c : repo.Content) (w w' : W)
      → IsPromoted x c w w'
      → repo.content_at (full_tag v) w'
        ≡ (if str_eq (full_tag x) (full_tag v) then some c else repo.content_at (full_tag v) w)
  full_tag-IsPromoted x v c w w' p =
      let vs = parse_semantic_versions (repo.tags w) in
      rw (p (full_tag v), tags_to_update-newest x vs) ground
        (arith, minor_tag-full_tag x v, major_tag-full_tag x v, latest-full_tag v)

  pub latest-IsPromoted :
      (x : Version) (c : repo.Content) (w w' : W)
      → IsPromoted x c w w'
      → repo.content_at "latest" w' ≡ (
          if is_newest any_version x (parse_semantic_versions (repo.tags w))
          then some c
          else repo.content_at "latest" w)
  latest-IsPromoted x c w w' p =
      let vs = parse_semantic_versions (repo.tags w) in
      rw (p "latest", tags_to_update-newest x vs) ground
        (arith, full_tag-latest x, minor_tag-latest x, major_tag-latest x, eq_refl "latest")

  -- Promotions to a repository that had no tags, all of which succeeded.
  pub data Published : W → Type 0 where
    nothing : {w : W} → repo.tags w ≡ [] → Published w
    promoted : {w w' : W} (v : Version) → Published w → IsPromotion v w w' → Published w'
