-- ===== src/Examples/Promotion.antt =====
-- Promotions of images: tests, and the theorems at concrete inputs.
use Prim.Native.Char.{code}
use step_runner.Common.{
  ◌==◌, append, append-cons, append-empty, some, trim_space, join_path, if◌then◌else◌, ℕ, String,
  ◌≡◌, refl, true, is_some, List, [], ◌∷◌, ◌++◌, Map, lookup, put, lookup-put, map, str_eq, arith,
  inr, Error, foreign, wrap, Result, ok, err,
}
use step_runner.Promote.Version.{
  Version, new_version, parse_semantic_version, parse_semantic_versions, tags_to_update, full_tag,
  minor_tag, major_tag, is_most_recent_patch_for_major_minor, is_most_recent_minor_for_major,
  is_most_recent_major, parse_parts, submatch,
}
use step_runner.Promote.Newest.{
  is_newest, same_minor, same_major, any_version, tag_if, tags_to_update-newest,
}
use step_runner.Promote.RoundTrip.{IsWord, parse_semantic_version-full_tag}
use step_runner.Promote.Remote.{Registry, promote}
use step_runner.Promote.ImageRef.{Names, Flags, parse_remote_image_ref}
use step_runner.Promote.Release.{IsRelease, version_text, parse_remote_image_ref-version_text}
use step_runner.Promote.Repository.{has_tag, Repository}
use step_runner.Promote.Promoted.{IsPromotion, Published, nothing, promoted}
use step_runner.Promote.Latest.{Published-NamesNewest}

abbrev version : Version
version = new_version 1 3 2 ""

abbrev published : List Version
published = new_version 1 3 1 "" ∷ new_version 1 2 9 "" ∷ new_version 2 0 0 "" ∷ []

moved_tags : tags_to_update version published ≡ "1.3.2" ∷ "1.3" ∷ "1" ∷ []
unfolding tags_to_update full_tag minor_tag major_tag is_most_recent_patch_for_major_minor
    is_most_recent_minor_for_major is_most_recent_major
moved_tags = refl

tags_to_update-newest_example :
    tags_to_update version published
    ≡ full_tag version ∷ tag_if (is_newest same_minor version published) (minor_tag version)
      ++ tag_if (is_newest same_major version published) (major_tag version)
      ++ tag_if (is_newest any_version version published) "latest"
tags_to_update-newest_example = tags_to_update-newest version published

version-IsWord : IsWord version
version-IsWord = (omega arith, omega arith, omega arith, refl)

parse_semantic_version-full_tag_example : parse_semantic_version (full_tag version) ≡ ok version
parse_semantic_version-full_tag_example = parse_semantic_version-full_tag version version-IsWord

tag_reading : parse_semantic_version "1.03.2" ≡ ok version
unfolding parse_semantic_version parse_parts submatch
tag_reading = refl

-- References that are texts, and a registry that refuses to write to one of them.
abbrev names : Names
names = record {
  Reference = String;
  parse_reference = λ text. ok text;
  repository = λ ref. ref;
  identifier = λ ref. "latest";
  range_error = λ digits. foreign "value out of range";
  parse_level = λ text. ok 0;
}

abbrev write_tag : String → ℕ → Map ℕ → Result (Unit {0}) × Map ℕ
write_tag ref image w =
    if str_eq ref "read-only" then (err (foreign "denied"), w) else (ok tt, put ref image w)

abbrev registry : Registry names (Map ℕ)
registry = record {
  Index = ℕ;
  Image = ℕ;
  index = λ ref w. err (foreign "no index");
  write_index = write_tag;
  image = λ ref w. ok 7;
  write_image = write_tag;
  list = λ repository w. ok [];
  codes = λ e. [];
  text = λ ref. ref;
}

abbrev refused : Error
refused = wrap "write image to %q: %w" ("read-only" ∷ []) (foreign "denied")

-- A repository that is a map from tags to images.
abbrev keys : Map ℕ → List String
keys w = map (λ b. b.0) w

has_tag-lookup : (u : String) (w : Map ℕ) → has_tag u (keys w) ≡ is_some (lookup u w)
unfolding lookup
has_tag-lookup u [] = refl
has_tag-lookup u ((t, i) ∷ w) = ground (arith, has_tag-lookup u w)

-- What follows the first colon of a text.
unfoldable after_colon : String → String
after_colon String.[] = ""
after_colon (String.◌∷◌ c s) = let rest = after_colon s in if code c == b':' then s else rest

-- The references of one repository, which are its tags.
abbrev app_names : Names
app_names = record {
  Reference = String;
  parse_reference = λ text. ok (after_colon text);
  repository = λ ref. "app";
  identifier = λ ref. ref;
  range_error = λ digits. foreign "value out of range";
  parse_level = λ text. ok 0;
}

after_colon-app : (t : String) → after_colon (append "app" (append ":" t)) ≡ t
unfolding after_colon
after_colon-app t =
    rw
      (
        append-cons "a" "pp" (append ":" t),
        append-cons "p" "p" (append ":" t),
        append-cons "p" "" (append ":" t),
        append-empty (append ":" t),
        append-cons ":" "" t,
        append-empty t,
      )
      refl

abbrev put_tag : String → ℕ → Map ℕ → Result (Unit {0}) × Map ℕ
put_tag ref image w = (ok tt, put ref image w)

-- A registry of that repository alone, with the images of two builds.
abbrev app_registry : Registry app_names (Map ℕ)
app_registry = record {
  Index = ℕ;
  Image = ℕ;
  index = λ ref w. err (foreign "no index");
  write_index = put_tag;
  image = λ ref w. ok (if str_eq ref "build-5" then 5 else 6);
  write_image = put_tag;
  list = λ repository w. ok (keys w);
  codes = λ e. [];
  text = λ ref. ref;
}

put_tag-lookup :
    (t u : String) (i : ℕ) (w w' : Map ℕ)
    → put_tag t i w ≡ (ok tt, w')
    → lookup u w' ≡ (if str_eq t u then some i else lookup u w)
put_tag-lookup t u i w w' h =
    let same : put t i w ≡ w' = ground arith in rw (← same) (lookup-put t u i w)

abbrev repository : Repository app_names app_registry
repository = record {
  Content = ℕ;
  of_index = λ i. i;
  of_image = λ i. i;
  name = "app";
  tagged = λ t. t;
  tags = keys;
  content_at = lookup;
  parse_reference-tagged = λ t ref h. let e = after_colon-app t in ground arith;
  tags-content_at = has_tag-lookup;
  list-tags = λ w ts h. ground arith;
  list-unknown = λ w e h unknown. absurd (ground arith);
  content_at-write_index = put_tag-lookup;
  content_at-write_image = put_tag-lookup;
  index-write_index = λ from t i w w' h written. absurd (ground arith);
  image-write_image =
      λ from t i e w w' none_there image written. ((foreign "no index", refl), image);
}

abbrev older : Version
older = new_version 1 2 9 ""

older-IsWord : IsWord older
older-IsWord = (omega arith, omega arith, omega arith, refl)

abbrev flags_for : String → String → Flags app_names
flags_for image tag = record {
  from_image = image;
  to_registry = "registry.example.com";
  to_repository = "app";
  to_version = tag;
}

abbrev no_env : String → String
no_env name = ""

-- 1.3.2 is promoted, then 1.2.9 of an older line.
abbrev after_first : Map ℕ
after_first = (promote app_names app_registry (ok (flags_for "tmp:build-5" "1.3.2")) no_env []).1

abbrev promotions : Map ℕ
promotions =
    (promote app_names app_registry (ok (flags_for "tmp:build-6" "1.2.9")) no_env after_first).1

first-IsPromotion : IsPromotion repository version [] after_first
unfolding step_runner.Promote.ImageRef.parse_inputs after_colon full_tag promote
    is_most_recent_patch_for_major_minor is_most_recent_minor_for_major is_most_recent_major
first-IsPromotion = record {
  flags = ok (flags_for "tmp:build-5" "1.3.2");
  getenv = no_env;
  inputs = record { from_image_ref = "build-5"; to_image_ref = ("1.3.2", version); log_level = 0 };
  parsed = refl;
  to_repository = refl;
  of_version = refl;
  is_word = version-IsWord;
  succeeds = refl;
}

second-IsPromotion : IsPromotion repository older after_first promotions
unfolding step_runner.Promote.ImageRef.parse_inputs after_colon full_tag promote
    is_most_recent_patch_for_major_minor is_most_recent_minor_for_major is_most_recent_major put
    minor_tag major_tag parse_semantic_version parse_parts submatch
second-IsPromotion = record {
  flags = ok (flags_for "tmp:build-6" "1.2.9");
  getenv = no_env;
  inputs = record { from_image_ref = "build-6"; to_image_ref = ("1.2.9", older); log_level = 0 };
  parsed = refl;
  to_repository = refl;
  of_version = refl;
  is_word = older-IsWord;
  succeeds = refl;
}

promotions-Published : Published repository promotions
promotions-Published =
    promoted {w = after_first} older (promoted {w = []} version (nothing refl) first-IsPromotion)
      second-IsPromotion

promotions-newest :
    (has_tag (full_tag version) (keys promotions) ≡ true)
    × (is_newest any_version version (parse_semantic_versions (keys promotions)) ≡ true)
unfolding promote after_colon is_most_recent_patch_for_major_minor is_most_recent_minor_for_major
    is_most_recent_major put full_tag minor_tag major_tag parse_semantic_version parse_parts
    submatch
promotions-newest = (refl, refl)

Published-NamesNewest_example : lookup "latest" promotions ≡ lookup (full_tag version) promotions
Published-NamesNewest_example =
    Published-NamesNewest repository version promotions-Published version-IsWord
      (promotions-newest.0) (promotions-newest.1)

abbrev candidate : Version
candidate = new_version 1 4 0 "-rc1"

candidate-IsRelease : IsRelease candidate.release
candidate-IsRelease = inr ("rc1", refl, refl)

parse_remote_image_ref-version_text_example :
    parse_remote_image_ref names "registry.example.com" " steps/echo" (version_text candidate)
    ≡ ok ("registry.example.com/steps/echo:1.4.0-rc1", candidate)
unfolding version_text full_tag trim_space join_path
parse_remote_image_ref-version_text_example =
    parse_remote_image_ref-version_text names "registry.example.com" " steps/echo" candidate
      "registry.example.com/steps/echo:1.4.0-rc1" (omega arith, omega arith, omega arith)
      candidate-IsRelease refl refl refl refl
