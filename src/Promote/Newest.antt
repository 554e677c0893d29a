-- ===== src/Promote/Newest.antt =====
-- The tags that a version moves, told by the order of versions.
use step_runner.Common.{
  ltb, ◌==◌, String, ◌≡◌, refl, Bool, true, false, not, ◌&&◌, ◌||◌, List, [], ◌∷◌, ◌++◌, all, arith,
}
use step_runner.Promote.Version.{
  Version, major_tag, minor_tag, full_tag, is_most_recent_patch_for_major_minor,
  is_most_recent_minor_for_major, is_most_recent_major, tags_to_update,
}

-- The order of semantic versions: by major, then by minor, then by patch.
abbrev pub is_later : Version → Version → Bool
is_later e v =
    ltb v.major e.major
    || (e.major == v.major && (ltb v.minor e.minor || (e.minor == v.minor && ltb v.patch e.patch)))

abbrev pub same_major : Version → Version → Bool
same_major e v = e.major == v.major

abbrev pub same_minor : Version → Version → Bool
same_minor e v = e.major == v.major && e.minor == v.minor

abbrev pub any_version : Version → Version → Bool
any_version e v = true

-- No version in the scope is later.
abbrev pub is_newest : (Version → Version → Bool) → Version → List Version → Bool
is_newest in_scope v = all (λ e. not (in_scope e v && is_later e v))

abbrev pub tag_if : Bool → String → List String
tag_if true tag = tag ∷ []
tag_if false tag = []

same_minor-newest :
    (v : Version) (existing : List Version)
    → is_most_recent_patch_for_major_minor v existing ≡ is_newest same_minor v existing
unfolding is_most_recent_patch_for_major_minor
same_minor-newest v [] = refl
same_minor-newest v (e ∷ existing) = ground (arith, same_minor-newest v existing)

same_major-newest :
    (v : Version) (existing : List Version)
    → (is_most_recent_patch_for_major_minor v existing && is_most_recent_minor_for_major v existing)
      ≡ is_newest same_major v existing
unfolding is_most_recent_patch_for_major_minor is_most_recent_minor_for_major
same_major-newest v [] = refl
same_major-newest v (e ∷ existing) = ground (arith, same_major-newest v existing)

any_version-newest :
    (v : Version) (existing : List Version)
    → (is_newest same_major v existing && is_most_recent_major v existing)
      ≡ is_newest any_version v existing
unfolding is_most_recent_major
any_version-newest v [] = refl
any_version-newest v (e ∷ existing) = ground (arith, any_version-newest v existing)

-- The tags that a version moves are its own; major.minor if no existing version with that major and
-- minor number is later; major if none with that major number is; and latest if none at all is.
pub tags_to_update-newest :
    (v : Version) (existing : List Version)
    → tags_to_update v existing
      ≡ full_tag v ∷ tag_if (is_newest same_minor v existing) (minor_tag v)
        ++ tag_if (is_newest same_major v existing) (major_tag v)
        ++ tag_if (is_newest any_version v existing) "latest"
unfolding tags_to_update
tags_to_update-newest v existing = ground (
  arith,
  same_minor-newest v existing,
  same_major-newest v existing,
  any_version-newest v existing,
)
