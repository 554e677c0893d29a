-- ===== src/Promote/Repository.antt =====
-- promote/internal/remote: a repository of a registry, and what a copy that succeeds does to its tags.
use step_runner.Common.{
  if◌then◌else◌, String, ◌≡◌, refl, sym, ap, ◌∙◌, Bool, true, false, ◌||◌, ◌⊎◌, inl, inr, Option,
  some, is_some, List, [], ◌∷◌, map, append, Error, ok, err, str_eq, arith, Result-cases,
  Bool-cases,
}
use step_runner.Promote.ImageRef.{Names, build_ref_for_tag, refs_for_tags}
use step_runner.Promote.Remote.{
  Registry, is_error_name_unknown, list_tags, copy_image_index, copy_image, copy_ref, copy_all,
}

abbrev pub has_tag : String → List String → Bool
has_tag u [] = false
has_tag u (t ∷ ts) = str_eq t u || has_tag u ts

-- One repository of a registry, with its tags and what they name, an index or an image. A tag that is
-- written names what was written and other tags keep theirs; a reference that is read keeps what it
-- names when that is written to a tag; the tags that are listed are those that name something, and
-- there are none if the registry does not know the repository.
pub record Repository {W : Type 0} (ns : Names) (r : Registry ns W) : Type 1 where
  pub Content : Type 0
  pub of_index : r.Index → Content
  pub of_image : r.Image → Content
  pub name : String
  pub tagged : String → ns.Reference
  pub tags : W → List String
  pub content_at : String → W → Option Content
  pub parse_reference-tagged :
      (t : String) (ref : ns.Reference)
      → ns.parse_reference (append name (append ":" t)) ≡ ok ref
      → ref ≡ tagged t
  pub tags-content_at : (u : String) (w : W) → has_tag u (tags w) ≡ is_some (content_at u w)
  pub list-tags : (w : W) (ts : List String) → r.list name w ≡ ok ts → ts ≡ tags w
  pub list-unknown :
      (w : W) (e : Error)
      → r.list name w ≡ err e
      → is_error_name_unknown ns r e ≡ true
      → tags w ≡ []
  pub content_at-write_index :
      (t u : String) (i : r.Index) (w w' : W)
      → r.write_index (tagged t) i w ≡ (ok tt, w')
      → content_at u w' ≡ (if str_eq t u then some (of_index i) else content_at u w)
  pub content_at-write_image :
      (t u : String) (i : r.Image) (w w' : W)
      → r.write_image (tagged t) i w ≡ (ok tt, w')
      → content_at u w' ≡ (if str_eq t u then some (of_image i) else content_at u w)
  pub index-write_index :
      (from : ns.Reference) (t : String) (i : r.Index) (w w' : W)
      → r.index from w ≡ ok i
      → r.write_index (tagged t) i w ≡ (ok tt, w')
      → r.index from w' ≡ ok i
  pub image-write_image :
      (from : ns.Reference) (t : String) (i : r.Image) (e : Error) (w w' : W)
      → r.index from w ≡ err e
      → r.image from w ≡ ok i
      → r.write_image (tagged t) i w ≡ (ok tt, w')
      → ((e' : Error) × (r.index from w' ≡ err e')) × (r.image from w' ≡ ok i)

module _ {W : Type 0} {ns : Names} {r : Registry ns W} (repo : Repository ns r) where
  -- What a reference names.
  abbrev IsSource : ns.Reference → repo.Content → W → Type 0
  IsSource from c w =
      ((i : r.Index) × (r.index from w ≡ ok i) × (c ≡ repo.of_index i))
      ⊎ ((i : r.Image) × ((e : Error) × (r.index from w ≡ err e))
          × (r.image from w ≡ ok i)
          × (c ≡ repo.of_image i))

  -- The tags of the list name something, other tags keep what they name.
  abbrev pub NamesAll : List String → repo.Content → W → W → Type 0
  NamesAll ts c w w' =
      (u : String) → repo.content_at u w' ≡ (if has_tag u ts then some c else repo.content_at u w)

  pub copy_ref-IsSource :
      (from to : ns.Reference) (w w' : W)
      → copy_ref ns r from to w ≡ (ok tt, w')
      → (c : repo.Content) × IsSource from c w
  unfolding copy_ref copy_image
  copy_ref-IsSource from to w w' h = elim (Result-cases (r.index from w)) [
    | inl (i, q) ↦ (repo.of_index i, inl (i, q, refl))
    | inr (e, q) ↦ elim (Result-cases (r.image from w)) [
      | inl (i, f) ↦ (repo.of_image i, inr (i, (e, q), f, refl))
      | inr (e', f) ↦ absurd (ground arith)
    ]
  ]

  copy_ref-index :
      (from to : ns.Reference) (i : r.Index) (w w' : W)
      → r.index from w ≡ ok i
      → copy_ref ns r from to w ≡ (ok tt, w')
      → r.write_index to i w ≡ (ok tt, w')
  unfolding copy_ref copy_image_index
  copy_ref-index from to i w w' q h = elim (Result-cases ((r.write_index to i w).0)) [
    | inl (u, f) ↦ ground arith
    | inr (e, f) ↦ absurd (ground arith)
  ]

  copy_ref-image :
      (from to : ns.Reference) (i : r.Image) (e : Error) (w w' : W)
      → r.index from w ≡ err e
      → r.image from w ≡ ok i
      → copy_ref ns r from to w ≡ (ok tt, w')
      → r.write_image to i w ≡ (ok tt, w')
  unfolding copy_ref copy_image
  copy_ref-image from to i e w w' q f h = elim (Result-cases ((r.write_image to i w).0)) [
    | inl (u, g) ↦ ground arith
    | inr (e', g) ↦ absurd (ground arith)
  ]

  copy_ref-tagged :
      (from : ns.Reference) (t : String) (c : repo.Content) (w w' : W)
      → IsSource from c w
      → copy_ref ns r from (repo.tagged t) w ≡ (ok tt, w')
      → ((u : String) → repo.content_at u w' ≡ (if str_eq t u then some c else repo.content_at u w))
        × IsSource from c w'
  copy_ref-tagged from t c w w' (inl (i, q, same)) h =
      let wrote = copy_ref-index from (repo.tagged t) i w w' q h in
      (
        λ u. rw same (repo.content_at-write_index t u i w w' wrote),
        inl (i, repo.index-write_index from t i w w' q wrote, same),
      )
  copy_ref-tagged from t c w w' (inr (i, (e, q), f, same)) h =
      let wrote = copy_ref-image from (repo.tagged t) i e w w' q f h in
      let (no_index, image) = repo.image-write_image from t i e w w' q f wrote in
      (λ u. rw same (repo.content_at-write_image t u i w w' wrote), inr (i, no_index, image, same))

  pub copy_all-cons :
      (from to : ns.Reference) (refs : List ns.Reference) (w w' : W)
      → copy_all ns r from (to ∷ refs) w ≡ (ok tt, w')
      → (w1 : W) × (copy_ref ns r from to w ≡ (ok tt, w1))
        × (copy_all ns r from refs w1 ≡ (ok tt, w'))
  unfolding copy_all
  copy_all-cons from to refs w w' h = elim (Result-cases ((copy_ref ns r from to w).0)) [
    | inl (u, q) ↦
        ((copy_ref ns r from to w).1, ap (λ t. (t, (copy_ref ns r from to w).1)) q, ground arith)
    | inr (e, q) ↦ absurd (ground arith)
  ]

  pub copy_all-tagged :
      (from : ns.Reference) (ts : List String) (c : repo.Content) (w w' : W)
      → IsSource from c w
      → copy_all ns r from (map repo.tagged ts) w ≡ (ok tt, w')
      → NamesAll ts c w w'
  unfolding copy_all
  copy_all-tagged from [] c w w' source h u =
      let same : w ≡ w' = ground arith in ap (repo.content_at u) (sym same)
  copy_all-tagged from (t ∷ ts) c w w' source h u =
      let (w1, first, rest) = copy_all-cons from (repo.tagged t) (map repo.tagged ts) w w' h in
      let (wrote, source1) = copy_ref-tagged from t c w w1 source first in
      let others = copy_all-tagged from ts c w1 w' source1 rest u in
      let one = wrote u in ground arith

  pub refs_for_tags-tagged :
      (ref : ns.Reference) (ts : List String) (refs : List ns.Reference)
      → ns.repository ref ≡ repo.name
      → refs_for_tags ns ref ts ≡ ok refs
      → refs ≡ map repo.tagged ts
  unfolding refs_for_tags build_ref_for_tag
  refs_for_tags-tagged ref [] refs named h = ground arith
  refs_for_tags-tagged ref (t ∷ ts) refs named h =
      elim (Result-cases (ns.parse_reference (append (ns.repository ref) (append ":" t)))) [
        | inr (e, q) ↦ absurd (ground arith)
        | inl (to, q) ↦ elim (Result-cases (refs_for_tags ns ref ts)) [
          | inr (e, f) ↦ absurd (ground arith)
          | inl (rest, f) ↦
              let first = repo.parse_reference-tagged t to (rw named at q) in
              let others = refs_for_tags-tagged ref ts rest named f in
              let both : to ∷ rest ≡ refs = ground arith in
              sym both ∙ ap (λ x. x ∷ rest) first ∙ ap (λ x. repo.tagged t ∷ x) others
        ]
      ]

  pub list_tags-tags :
      (w : W) (ts : List String) → list_tags ns r repo.name w ≡ ok ts → ts ≡ repo.tags w
  unfolding list_tags
  list_tags-tags w ts h = elim (Result-cases (r.list repo.name w)) [
    | inl (listed, q) ↦ repo.list-tags w ts (q ∙ ground arith)
    | inr (e, q) ↦ elim (Bool-cases (is_error_name_unknown ns r e)) [
      | inl unknown ↦
          let nothing_listed : ts ≡ [] = ground arith in
          nothing_listed ∙ sym (repo.list-unknown w e q unknown)
      | inr known ↦ absurd (ground arith)
    ]
  ]
