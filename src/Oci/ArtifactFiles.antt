-- ===== src/Oci/ArtifactFiles.antt =====
-- oci/build/internal/artifact.go: the files of an artifact are copied to a directory of their own.
use step_runner.Common.{String, Bool, true, false, [], ◌∷◌, clean, join_path, split_dir, Result, ok}
use step_runner.Oci.World.{and_then, wrapped, deferring, on_error}
use step_runner.Oci.Artifacts.{Artifact}

-- Package os. A file is opened to be read, or created, and io.Copy goes from one path to another.
pub record CopyHost (W : Type 0) : Type 0 where
  pub make_temp_dir : W → Result String × W
  pub remove_all : String → W → Result (Unit {0}) × W
  -- os.Stat: whether there is a directory at a path
  pub stat_is_dir : String → W → Result Bool
  pub mkdir_all : String → W → Result (Unit {0}) × W
  pub open_source : String → W → Result (Unit {0}) × W
  pub open_destination : String → W → Result (Unit {0}) × W
  pub copy_content : String → String → W → Result (Unit {0}) × W
  pub close : String → W → Result (Unit {0}) × W
  pub copy_fs : String → String → W → Result (Unit {0}) × W

module _ {W : Type 0} (host : CopyHost W) where
  -- copyFile, with the deferred calls that close the files
  unfoldable pub copy_file : String → String → W → Result (Unit {0}) × W
  copy_file src dst w =
      and_then (wrapped "open source file: %w" [] (host.open_source src w)) λ u w1.
        deferring (λ t. (host.close src t).1)
          (and_then (wrapped "open destination file: %w" [] (host.open_destination dst w1)) λ u w2.
            deferring (λ t. (host.close dst t).1)
              (and_then
                (wrapped "copy source file to destination file: %w" []
                  (host.copy_content src dst w2))
                λ u w3. wrapped "close destination file: %w" [] (host.close dst w3)))

  -- copyDir
  unfoldable pub copy_dir : String → String → W → Result (Unit {0}) × W
  copy_dir src dst w = wrapped "copy source dir to destination dir: %w" [] (host.copy_fs dst src w)

  -- removeDir
  unfoldable pub remove_base : String → W → Result (Unit {0}) × W
  remove_base dir w =
      wrapped "remove destination directory %q: %w" (dir ∷ []) (host.remove_all dir w)

  unfoldable pub copy_either : Bool → String → String → W → Result (Unit {0}) × W
  unfolding copy_dir copy_file
  copy_either true src dst w = copy_dir src dst w
  copy_either false src dst w = copy_file src dst w

  -- FS, with the directory of what was copied: on an error it is removed
  unfoldable pub artifact_fs : Artifact → W → Result String × W
  unfolding copy_either remove_base clean join_path split_dir
  artifact_fs a w =
      and_then (wrapped "create temporary directory: %w" [] (host.make_temp_dir w)) λ base_dir w1.
        let src = clean a.src in
        let dst = join_path (base_dir ∷ clean a.dst ∷ []) in
        on_error (λ t. (remove_base base_dir t).1)
          (and_then (host.stat_is_dir src w1, w1)
            λ is_dir w2.
              and_then
                (wrapped "create destination directories: %w" []
                  (host.mkdir_all (split_dir dst) w2))
                λ u w3. and_then (copy_either is_dir src dst w3) λ u w4. (ok base_dir, w4))
