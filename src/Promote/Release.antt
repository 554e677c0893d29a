-- ===== src/Promote/Release.antt =====
-- Reading the version input of the promotion.
use Prim.Native.Char.{code}
use step_runner.Common.{
  ℕ, String, ◌≡◌, refl, ap, sym, ◌∙◌, Bool, true, false, not, none, some, [], ◌∷◌, append,
  append-empty, append-cons, all_digits, is_digit, is_number, format_uint, is_number-format_uint,
  all_digits-of_is_number, parse_uint-format_uint, max_uint, ◌<◌, ok, arith, eq_iff, inl, inr, ◌⊎◌,
  ◌==◌, all, chars, Bool-cases, trim_space, str_eq, join_path,
}
use step_runner.Promote.Version.{Version, full_tag}
use step_runner.Promote.ImageRef.{
  Names, number_in, parse_groups, parse_trimmed, parse_remote_image_ref,
}
use step_runner.Promote.Pattern.{
  span_digits, after_dot, is_line, release_of, scan_number, Groups, find_submatch,
}

-- A text that is empty or begins with no digit.
unfoldable pub ends_digits : String → Bool
ends_digits String.[] = true
ends_digits (String.◌∷◌ c s) = not (is_digit (code c))

span_digits-append :
    (d rest : String)
    → all_digits d ≡ true
    → ends_digits rest ≡ true
    → span_digits (append d rest) ≡ (d, rest)
unfolding span_digits all_digits ends_digits
span_digits-append String.[] String.[] h e = rw (append-empty "") refl
span_digits-append String.[] (String.◌∷◌ c s) h e = rw (append-empty (String.◌∷◌ c s)) ground arith
span_digits-append (String.◌∷◌ c d) rest h e =
    rw (append-cons c d rest) (let r = span_digits-append d rest (ground arith) e in ground arith)

scan_number-append :
    (n : ℕ) (rest : String)
    → ends_digits rest ≡ true
    → scan_number (append (format_uint n) rest) ≡ some (format_uint n, rest)
unfolding scan_number
scan_number-append n rest e =
    let number = is_number-format_uint n in
    let digits = all_digits-of_is_number (format_uint n) number in
    rw (span_digits-append (format_uint n) rest digits e, number) refl

-- A release: nothing, or a dash with a text that has no end of line.
abbrev pub IsRelease : String → Type 0
IsRelease release =
    (release ≡ "")
    ⊎ ((text : String) × (release ≡ append "-" text)
        × (all (λ c. not (code c == 10)) (chars text) ≡ true))

is_line-chars :
    (text : String) → all (λ c. not (code c == 10)) (chars text) ≡ true → is_line text ≡ true
unfolding is_line
is_line-chars String.[] h = refl
is_line-chars (String.◌∷◌ c s) h = let rest = is_line-chars s in ground (arith, rest)

release_of-IsRelease :
    (release : String)
    → IsRelease release
    → (release_of release ≡ some release) × (ends_digits release ≡ true)
unfolding release_of ends_digits
release_of-IsRelease release (inl e) = rw e (refl, refl)
release_of-IsRelease release (inr (text, e, line)) =
    rw (e, append-cons "-" "" text, append-empty text, is_line-chars text line) (refl, refl)

-- The text of a version with its release.
unfoldable pub version_text : Version → String
version_text v = append (format_uint v.major) (
    append "." (append (format_uint v.minor) (append "." (append (format_uint v.patch) v.release))))

after_dot-append : (s : String) → after_dot (append "." s) ≡ some s
unfolding after_dot
after_dot-append s = rw (append-cons "." "" s, append-empty s) refl

dot-ends_digits : (s : String) → ends_digits (append "." s) ≡ true
unfolding ends_digits
dot-ends_digits s = rw (append-cons "." "" s) refl

pub find_submatch-version_text :
    (v : Version)
    → IsRelease v.release
    → find_submatch (version_text v)
      ≡ some (record {
        major = format_uint v.major;
        minor = format_uint v.minor;
        patch = format_uint v.patch;
        release = v.release;
      })
unfolding find_submatch version_text
find_submatch-version_text v is_release =
    let (release, ends) = release_of-IsRelease v.release is_release in
    rw
      (
        scan_number-append v.major
            (append "."
              (append (format_uint v.minor) (append "." (append (format_uint v.patch) v.release))))
            (dot-ends_digits _),
        after_dot-append
            (append (format_uint v.minor) (append "." (append (format_uint v.patch) v.release))),
        scan_number-append v.minor (append "." (append (format_uint v.patch) v.release))
            (dot-ends_digits _),
        after_dot-append (append (format_uint v.patch) v.release),
        scan_number-append v.patch v.release ends,
        release,
      )
      refl

module _ (ns : Names) where
  abbrev groups_of : Version → Groups
  groups_of v = record {
    major = format_uint v.major;
    minor = format_uint v.minor;
    patch = format_uint v.patch;
    release = v.release;
  }

  number_in-format_uint : (n : ℕ) → n < max_uint → number_in ns (format_uint n) ≡ ok n
  unfolding number_in
  number_in-format_uint n h = rw (parse_uint-format_uint n h, number_in) refl

  parse_groups-groups_of :
      (registry repository text : String) (v : Version) (ref : ns.Reference)
      → (v.major < max_uint) × (v.minor < max_uint) × (v.patch < max_uint)
      → ns.parse_reference (
          append
            (join_path (registry ∷ repository ∷ []))
            (append ":" (append (full_tag v) v.release)))
        ≡ ok ref
      → parse_groups ns registry repository text (some (groups_of v)) ≡ ok (ref, v)
  unfolding parse_groups
  parse_groups-groups_of registry repository text v ref (major, minor, patch) named =
      let a = number_in-format_uint v.major major in
      let b = number_in-format_uint v.minor minor in
      let c = number_in-format_uint v.patch patch in rw (a, b, c, named, parse_groups) refl

  not_empty : (text : String) (g : Groups) → find_submatch text ≡ some g → str_eq text "" ≡ false
  unfolding find_submatch scan_number span_digits is_number
  not_empty text g h = elim (Bool-cases (str_eq text "")) [
    | inr q ↦ q
    | inl q ↦
        let empty : find_submatch "" ≡ some g = ap find_submatch (sym ((eq_iff text "").0 q)) ∙ h in
        absurd (let none_there : find_submatch "" ≡ none = refl in cc)
  ]

  parse_trimmed-version_text :
      (registry repository : String) (v : Version) (ref : ns.Reference)
      → (v.major < max_uint) × (v.minor < max_uint) × (v.patch < max_uint)
      → IsRelease v.release
      → str_eq registry "" ≡ false
      → str_eq repository "" ≡ false
      → ns.parse_reference (
          append
            (join_path (registry ∷ repository ∷ []))
            (append ":" (append (full_tag v) v.release)))
        ≡ ok ref
      → parse_trimmed ns registry repository (version_text v) ≡ ok (ref, v)
  unfolding parse_trimmed
  parse_trimmed-version_text registry repository v ref words is_release has_registry has_repository
        named =
      let groups = find_submatch-version_text v is_release in
      rw (has_registry, has_repository, not_empty (version_text v) (groups_of v) groups, groups)
        (parse_groups-groups_of registry repository (version_text v) v ref words named)

  -- The inputs of a promotion are read as the version that they name: the version input may be any text
  -- major.minor.patch of 64-bit numbers, with nothing or a dash and a text of one line behind it, and
  -- without space around it, if the registry and the repository are not empty and the image library
  -- accepts the reference.
  pub parse_remote_image_ref-version_text :
      (registry repository : String) (v : Version) (ref : ns.Reference)
      → (v.major < max_uint) × (v.minor < max_uint) × (v.patch < max_uint)
      → IsRelease v.release
      → trim_space (version_text v) ≡ version_text v
      → str_eq (trim_space registry) "" ≡ false
      → str_eq (trim_space repository) "" ≡ false
      → ns.parse_reference (
          append
            (join_path (trim_space registry ∷ trim_space repository ∷ []))
            (append ":" (append (full_tag v) v.release)))
        ≡ ok ref
      → parse_remote_image_ref ns registry repository (version_text v) ≡ ok (ref, v)
  unfolding parse_remote_image_ref
  parse_remote_image_ref-version_text registry repository v ref words is_release trimmed
        has_registry has_repository named =
      ap (parse_trimmed ns (trim_space registry) (trim_space repository)) trimmed
      ∙ parse_trimmed-version_text (trim_space registry) (trim_space repository) v ref words
          is_release has_registry has_repository named
