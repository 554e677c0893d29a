-- ===== src/Promote/Remote.antt =====
-- promote/internal/remote: listing the tags of a repository and copying images, and promote/main.go.
use step_runner.Common.{
  if◌then◌else◌, String, Bool, false, ◌||◌, List, [], ◌∷◌, Error, wrap, Result, ok, err, wrapping,
  str_eq,
}
use step_runner.Promote.ImageRef.{Names, Flags, Inputs, parse_inputs, sem_ver_refs}

-- Package remote of go-containerregistry over a world of registries: Index, WriteIndex, Image, Write
-- and List. `codes` are those of the transport error that errors.As finds in an
-- error or in what it wraps.
pub record Registry (ns : Names) (W : Type 0) : Type 1 where
  pub Index : Type 0
  pub Image : Type 0
  pub index : ns.Reference → W → Result Index
  pub write_index : ns.Reference → Index → W → Result (Unit {0}) × W
  pub image : ns.Reference → W → Result Image
  pub write_image : ns.Reference → Image → W → Result (Unit {0}) × W
  pub list : String → W → Result (List String)
  pub codes : Error → List String
  pub text : ns.Reference → String

abbrev any_unknown : List String → Bool
any_unknown [] = false
any_unknown (code ∷ codes) = str_eq code "NAME_UNKNOWN" || any_unknown codes

module _ {W : Type 0} (ns : Names) (r : Registry ns W) where
  -- isErrorNameUnknown: the error and what it wraps
  unfoldable pub is_error_name_unknown : Error → Bool
  is_error_name_unknown (wrap format args e) =
      any_unknown (r.codes (wrap format args e)) || is_error_name_unknown e
  is_error_name_unknown e = any_unknown (r.codes e)

  -- ListTags
  unfoldable pub list_tags : String → W → Result (List String)
  unfolding is_error_name_unknown
  list_tags repository w = elim (r.list repository w) [
    | ok tags ↦ ok tags
    | err e ↦ if is_error_name_unknown e then ok [] else wrapping "listing tags: %w" [] (err e)
  ]

  -- a call that writes, with its error wrapped
  abbrev write_wrapped : String → List String → Result (Unit {0}) × W → Result (Unit {0}) × W
  write_wrapped format args (done, w) = (wrapping format args done, w)

  unfoldable pub copy_image_index : r.Index → ns.Reference → W → Result (Unit {0}) × W
  copy_image_index img_index to w =
      write_wrapped "write image index to %q: %w" (r.text to ∷ []) (r.write_index to img_index w)

  unfoldable pub copy_image : (from to : ns.Reference) → W → Result (Unit {0}) × W
  copy_image from to w =
      elim (wrapping "fetch image metadata %q: %w" (r.text from ∷ []) (r.image from w)) [
        | err e ↦ (err e, w)
        | ok img ↦ write_wrapped "write image to %q: %w" (r.text to ∷ []) (r.write_image to img w)
      ]

  -- Copy
  unfoldable pub copy_ref : (from to : ns.Reference) → W → Result (Unit {0}) × W
  unfolding copy_image copy_image_index
  copy_ref from to w = elim (r.index from w) [
    | ok img_index ↦ copy_image_index img_index to w
    | err e ↦ copy_image from to w
  ]

  -- what comes behind a call, unless the call fails
  abbrev and_copy : Result (Unit {0}) × W → (W → Result (Unit {0}) × W) → Result (Unit {0}) × W
  and_copy (err e, w) rest = (err e, w)
  and_copy (ok u, w) rest = rest w

  -- CopyAll
  unfoldable pub copy_all : ns.Reference → List ns.Reference → W → Result (Unit {0}) × W
  unfolding copy_ref
  copy_all from [] w = (ok tt, w)
  copy_all from (to ∷ refs) w = and_copy (copy_ref from to w) (copy_all from refs)

  abbrev copy_to_refs : ns.Reference → Result (List ns.Reference) → W → Result (Unit {0}) × W
  copy_to_refs from (err e) w = (err e, w)
  copy_to_refs from (ok refs) w = copy_all from refs w

  unfoldable pub promote_tags : Inputs ns → Result (List String) → W → Result (Unit {0}) × W
  unfolding sem_ver_refs copy_all
  promote_tags inputs (err e) w = (err e, w)
  promote_tags inputs (ok tags) w =
      copy_to_refs inputs.from_image_ref (sem_ver_refs ns inputs.to_image_ref tags) w

  -- run of main.go, behind what package flag makes of the arguments
  unfoldable pub promote : Result (Flags ns) → (String → String) → W → Result (Unit {0}) × W
  unfolding parse_inputs list_tags promote_tags
  promote flags getenv w = elim (parse_inputs ns flags getenv) [
    | err e ↦ (err e, w)
    | ok inputs ↦ promote_tags inputs (list_tags (ns.repository (inputs.to_image_ref.0)) w) w
  ]
