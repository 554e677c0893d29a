-- ===== src/Oci/Layers.antt =====
-- oci/fetch/internal/disk_layer_writer.go: the files of layers are written to a directory.
use step_runner.Common.{String, List, [], ◌∷◌, join_path, Error, Result, ok, err, wrap_error}
use step_runner.Oci.World.{and_then, wrapped, deferring}

pub data TypeFlag : Type 0 where
  dir_type reg_type other_type : TypeFlag

-- tar.Header, as far as it is used
pub record Header : Type 0 where
  pub name : String
  pub typeflag : TypeFlag

-- What Next of the tar reader returns, up to the end of the layer: an entry with its content, or an error.
pub data Entry : Type 0 where
  entry : Header → String → Entry
  bad_entry : Error → Entry

-- A layer as the writer reads it.
pub record Layer : Type 0 where
  pub digest : String
  pub uncompressed : Result (List Entry)

-- sanitizer.SanitizePath and the calls of package os; a file is opened, not truncated, and then copied to.
pub record Disk (W : Type 0) : Type 0 where
  pub sanitize_path : String → String
  pub mkdir_all : String → W → Result (Unit {0}) × W
  pub open_file : String → W → Result (Unit {0}) × W
  pub copy_to : String → String → W → Result (Unit {0}) × W
  pub close_file : String → W → Result (Unit {0}) × W

module _ {W : Type 0} (disk : Disk W) where
  -- writeDir
  unfoldable pub write_dir : String → W → Result (Unit {0}) × W
  write_dir dir w = wrapped "creating directory %q: %w" (dir ∷ []) (disk.mkdir_all dir w)

  -- writeFile
  unfoldable pub write_file : String → String → W → Result (Unit {0}) × W
  write_file path content w =
      and_then (wrapped "creating file %q: %w" (path ∷ []) (disk.open_file path w)) λ u w1.
        deferring (λ w2. (disk.close_file path w2).1)
          (and_then (wrapped "writing to file %q: %w" (path ∷ []) (disk.copy_to path content w1))
            λ v w2. wrapped "closing file %q: %w" (path ∷ []) (disk.close_file path w2))

  -- the path of an entry
  unfoldable pub entry_path : String → Header → String
  unfolding join_path
  entry_path dir h = join_path (dir ∷ disk.sanitize_path h.name ∷ [])

  -- the switch over the type of an entry
  unfoldable pub write_entry : String → Header → String → W → Result (Unit {0}) × W
  unfolding entry_path write_dir write_file
  write_entry dir h content w = elim h.typeflag [
    | dir_type ↦ write_dir (entry_path dir h) w
    | reg_type ↦ write_file (entry_path dir h) content w
    | other_type ↦ (ok tt, w)
  ]

  -- the loop of writeLayerToDisk
  unfoldable pub write_entries : String → List Entry → W → Result (Unit {0}) × W
  unfolding write_entry
  write_entries dir [] w = (ok tt, w)
  write_entries dir (bad_entry e ∷ entries) w =
      (err (wrap_error "advancing to next tar entry: %w" [] e), w)
  write_entries dir (entry h content ∷ entries) w =
      and_then (write_entry dir h content w) λ u w1. write_entries dir entries w1

  -- writeLayerToDisk
  unfoldable pub write_layer_to_disk : Layer → String → W → Result (Unit {0}) × W
  unfolding write_entries
  write_layer_to_disk layer dir w = elim layer.uncompressed [
    | err e ↦ (err (wrap_error "opening uncompressed reader: %w" [] e), w)
    | ok entries ↦ write_entries dir entries w
  ]

  -- Write
  unfoldable pub write_layers : List Layer → String → W → Result (Unit {0}) × W
  unfolding write_layer_to_disk
  write_layers [] output_dir w = (ok tt, w)
  write_layers (layer ∷ layers) output_dir w =
      and_then (wrapped "layer %q: %w" (layer.digest ∷ []) (write_layer_to_disk layer output_dir w))
        λ u w1. write_layers layers output_dir w1
