-- ===== src/Oci/Archives.antt =====
-- oci/build/internal/image_factory.go and platform_image.go: archives of files, and the images of them.
use step_runner.Common.{
  String, List, [], ◌∷◌, append, join_path, str_eq, Result, ok, err, wrapping, if◌then◌else◌, Bool,
}
use step_runner.Oci.World.{and_then, wrapped, deferring}
use step_runner.Oci.Artifacts.{Platform}
use step_runner.Oci.Manifests.{HostPlatform, convert_platform}

-- ImageFactory: the directory that it works in, "" before it is made
pub record ImageFactory : Type 0 where
  pub work_dir : String

-- Package os, the writers of an archive, and the SHA-256 of the name of a file system, in hexadecimal.
pub record Archiver (W : Type 0) : Type 0 where
  pub make_temp_dir : String → String → W → Result String × W
  pub remove_all : String → W → W
  pub hash : String → String
  -- os.Stat: whether there is a file
  pub stat : String → W → Bool
  pub create : String → W → Result (Unit {0}) × W
  pub new_zstd_writer : String → W → Result (Unit {0}) × W
  -- AddFS of the tar writer, and the three writers that are closed one after another
  pub add_fs : String → String → W → Result (Unit {0}) × W
  pub close_tar : String → W → Result (Unit {0}) × W
  pub close_zstd : String → W → Result (Unit {0}) × W
  pub close_file : String → W → Result (Unit {0}) × W

module _ {W : Type 0} (os : Archiver W) where
  abbrev made_dir : Result String × W → Result String × (ImageFactory × W)
  made_dir (err e, w) = (wrapping "creating work dir: %w" [] (err e), (record { work_dir = "" }, w))
  made_dir (ok dir, w) = (ok dir, (record { work_dir = dir }, w))

  -- createWorkDir
  unfoldable pub make_work_dir : ImageFactory → W → Result String × (ImageFactory × W)
  make_work_dir f w =
      if str_eq f.work_dir "" then made_dir (os.make_temp_dir "" "" w) else (ok f.work_dir, (f, w))

  -- the three writers of archive that are closed at its end
  unfoldable pub close_writers : String → W → Result String × W
  close_writers name w =
      and_then (wrapped "archive %s: closing tar writer: %w" (name ∷ []) (os.close_tar name w))
        λ u w1.
          and_then
            (wrapped "archive %s: closing zstd writer: %w" (name ∷ []) (os.close_zstd name w1))
            λ u w2.
              and_then (wrapped "archive %s: closing file: %w" (name ∷ []) (os.close_file name w2))
                λ u w3. (ok name, w3)

  -- what archive adds to its file, with the deferred calls that close the writers
  unfoldable pub fill_archive : String → String → W → Result String × W
  unfolding close_writers
  fill_archive fs name w =
      deferring (λ t. (os.close_zstd name (os.close_tar name t).1).1)
        (and_then (wrapped "archive: tar directory %s: %w" (fs ∷ []) (os.add_fs name fs w))
          λ u w1. close_writers name w1)

  -- archive behind the creation of its file, which a deferred call closes
  unfoldable pub write_archive : String → String → W → Result String × W
  unfolding fill_archive
  write_archive fs name w =
      deferring (λ t. (os.close_file name t).1)
        (and_then
          (wrapped "archive %s: creating zstd writer: %w" (name ∷ []) (os.new_zstd_writer name w))
          λ u w1. fill_archive fs name w1)

  abbrev pub archive_name : String → String → String
  archive_name work_dir fs = join_path (work_dir ∷ append (os.hash fs) ".tar.zstd" ∷ [])

  -- archive, in its work directory
  unfoldable pub archive_in : String → String → W → Result String × W
  unfolding write_archive join_path
  archive_in fs work_dir w =
      let name = archive_name work_dir fs in
      if os.stat name w
      then (ok name, w)
      else and_then (wrapped "archive %s: creating file: %w" (name ∷ []) (os.create name w))
          λ u w1. write_archive fs name w1

  abbrev pub archive_made :
      String → Result String × (ImageFactory × W) → Result String × (ImageFactory × W)
  archive_made fs (err e, (f, w)) = (wrapping "archive %s: %w" (fs ∷ []) (err e), (f, w))
  archive_made fs (ok work_dir, (f, w)) =
      let made = archive_in fs work_dir w in (made.0, (f, made.1))

  -- archive
  unfoldable pub archive : String → ImageFactory → W → Result String × (ImageFactory × W)
  unfolding make_work_dir archive_in
  archive fs f w = archive_made fs (make_work_dir f w)

  -- CleanUp
  unfoldable pub clean_up_images : ImageFactory → W → ImageFactory × W
  clean_up_images f w = (record { work_dir = "" }, os.remove_all f.work_dir w)

-- Package mutate, tarball and empty of go-containerregistry, with times as texts.
pub record Images : Type 1 where
  pub Layer : Type 0
  pub Image : Type 0
  pub Index : Type 0
  pub layer_of : String → Result Layer
  pub empty_image : (created : String) → Image
  pub with_config : Image → Result Image
  pub append_layers : Image → List Layer → Result Image
  pub empty_index : (created : String) → Index
  pub append_manifest : Index → Image → Platform → Index
  pub normalize : HostPlatform → HostPlatform

module _ (images : Images) where
  -- BuildLayer, of the archive or its error
  unfoldable pub layer_from : Result String → Result images.Layer
  layer_from (err e) = wrapping "creating layer: %w" [] (err e)
  layer_from (ok name) = wrapping "creating layer: %w" [] (images.layer_of name)

  -- BuildImage
  unfoldable pub build_image : String → List images.Layer → Result images.Image
  build_image created layers = elim (images.with_config (images.empty_image created)) [
    | err e ↦ wrapping "build image: empty config: %w" [] (err e)
    | ok image ↦ wrapping "build image: appending layers: %w" [] (images.append_layers image layers)
  ]

  -- NormalizedPlatform
  unfoldable pub normalized_platform : Platform → Platform
  normalized_platform p =
      let n = images.normalize (convert_platform p) in
      record {
        os = n.os;
        architecture = n.architecture;
        os_version = n.os_version;
        os_features = n.os_features;
        variant = n.variant;
        features = p.features;
      }

  -- the loop of BuildImageIndex
  unfoldable pub append_images : images.Index → List (images.Image × Platform) → images.Index
  unfolding normalized_platform
  append_images index [] = index
  append_images index (i ∷ is) =
      append_images (images.append_manifest index i.0 (normalized_platform i.1)) is

  -- BuildImageIndex
  unfoldable pub build_image_index : String → List (images.Image × Platform) → images.Index
  unfolding append_images
  build_image_index created is = append_images (images.empty_index created) is
