-- ===== src/Promote/Apart.antt =====
-- The texts of a version's tags.
use step_runner.Common.{
  String, ◌≡◌, ◌≢◌, false, [], ◌∷◌, str_eq, eq_iff, split, ap, sym, ◌∙◌, inl, inr, Bool-cases,
  all_digits, is_number, format_uint, is_number-format_uint,
}
use step_runner.Promote.Version.{Version, full_tag, minor_tag, major_tag}
use step_runner.Promote.RoundTrip.{split-full_tag, split-minor_tag, split-major_tag}

-- The tags of versions are told apart, and none of the moving tags is that of a version.
apart : (s t : String) → (split b'.' s ≢ split b'.' t) → str_eq s t ≡ false
apart s t h = elim (Bool-cases (str_eq s t)) [
  | inl q ↦ absurd (h (ap (split b'.') ((eq_iff s t).0 q)))
  | inr q ↦ q
]

module _ (x v : Version) where
  pub minor_tag-full_tag : str_eq (minor_tag x) (full_tag v) ≡ false
  minor_tag-full_tag = apart (minor_tag x) (full_tag v) (λ h.
      let e : (format_uint x.major ∷ format_uint x.minor ∷ [])
          ≡ (format_uint v.major ∷ format_uint v.minor ∷ format_uint v.patch ∷ []) =
        sym (split-minor_tag x) ∙ h ∙ split-full_tag v in
      cc)

  pub major_tag-full_tag : str_eq (major_tag x) (full_tag v) ≡ false
  major_tag-full_tag = apart (major_tag x) (full_tag v) (λ h.
      let e : (format_uint x.major ∷ [])
          ≡ (format_uint v.major ∷ format_uint v.minor ∷ format_uint v.patch ∷ []) =
        sym (split-major_tag x) ∙ h ∙ split-full_tag v in
      cc)

module _ (v : Version) where
  pub latest-full_tag : str_eq "latest" (full_tag v) ≡ false
  unfolding split
  latest-full_tag = apart "latest" (full_tag v) (λ h.
      let e : ("latest" ∷ [])
          ≡ (format_uint v.major ∷ format_uint v.minor ∷ format_uint v.patch ∷ []) =
        h ∙ split-full_tag v in
      cc)

  pub full_tag-latest : str_eq (full_tag v) "latest" ≡ false
  unfolding split
  full_tag-latest = apart (full_tag v) "latest" (λ h.
      let e : (format_uint v.major ∷ format_uint v.minor ∷ format_uint v.patch ∷ [])
          ≡ ("latest" ∷ []) =
        sym (split-full_tag v) ∙ h in
      cc)

  pub minor_tag-latest : str_eq (minor_tag v) "latest" ≡ false
  unfolding split
  minor_tag-latest = apart (minor_tag v) "latest" (λ h.
      let e : (format_uint v.major ∷ format_uint v.minor ∷ []) ≡ ("latest" ∷ []) =
        sym (split-minor_tag v) ∙ h in
      cc)

  pub major_tag-latest : str_eq (major_tag v) "latest" ≡ false
  unfolding is_number all_digits format_uint major_tag
  major_tag-latest = elim (Bool-cases (str_eq (major_tag v) "latest")) [
    | inl q ↦
        let e : is_number (format_uint v.major) ≡ false =
          ap is_number ((eq_iff (major_tag v) "latest").0 q) in
        absurd (let t = is_number-format_uint v.major in cc)
    | inr q ↦ q
  ]
