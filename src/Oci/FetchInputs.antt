-- ===== src/Oci/FetchInputs.antt =====
-- oci/fetch/internal/inputs.go and outputs.go, and oci/build/internal/outputs.go: the inputs of a fetch, and
-- what both steps write to their output files.
use step_runner.Common.{
  String, List, [], ◌∷◌, append, join_path, clean, trim_space, str_eq, errorf, Result, ok, err,
  wrapping, ◌>>=◌, if◌then◌else◌, ℕ,
}
use step_runner.Promote.ImageRef.{Names}
use step_runner.Oci.World.{and_then, wrapped, deferring}

-- the flags, parsed by package flag
pub record FetchFlags : Type 0 where
  pub registry : String
  pub repository : String
  pub tag : String
  pub step_path : String
  pub output_file : String

module _ (ns : Names) where
  pub record FetchInputs : Type 0 where
    pub remote_image_ref : ns.Reference
    pub step_path : String
    pub log_level : ℕ
    pub output_file : String

  -- parseNamedReference: a tag, or else a digest; the error is the one for a tag
  unfoldable pub parse_named_reference : (registry repository tag : String) → Result ns.Reference
  unfolding join_path
  parse_named_reference registry repository tag =
      let name = join_path (registry ∷ repository ∷ []) in
      elim (ns.parse_reference (append name (append ":" tag))) [
        | ok ref ↦ ok ref
        | err tag_err ↦ elim (ns.parse_reference (append name (append "@" tag))) [
          | ok ref ↦ ok ref
          | err digest_err ↦ err tag_err
        ]
      ]

  -- ParseInputs behind the flags, with what os.Stat says of the output file
  unfoldable pub parse_fetch_inputs :
      Result FetchFlags → String → (String → Result (Unit {0})) → Result FetchInputs
  unfolding parse_named_reference trim_space clean
  parse_fetch_inputs flags level stat = flags >>= λ f.
      let registry = trim_space f.registry in
      let repository = trim_space f.repository in
      let tag = trim_space f.tag in
      if str_eq registry ""
      then err (errorf "registry is required" [])
      else if str_eq repository ""
      then err (errorf "repository is required" [])
      else if str_eq tag ""
      then err (errorf "tag is required" [])
      else (wrapping "parsing image reference: %w" []
            (parse_named_reference registry repository tag)
          >>= λ ref. wrapping "log level: %w" [] (ns.parse_level level) >>= λ log_level.
              wrapping "output file is required: %w" [] (stat f.output_file) >>= λ u. ok (record {
                remote_image_ref = ref;
                step_path = trim_space (clean f.step_path);
                log_level = log_level;
                output_file = f.output_file;
              }))

-- A value of an output: a text, or the struct of a digest.
pub data OutputContent : Type 0 where
  text : String → OutputContent
  digest_struct : (algorithm hash value : String) → OutputContent

pub record OutputValue : Type 0 where
  pub name : String
  pub value : OutputContent

-- os.Create and the file's methods, with json.Marshal
pub record OutputFile (W : Type 0) : Type 0 where
  pub create : String → W → Result (Unit {0}) × W
  pub write_text : String → String → W → Result (Unit {0}) × W
  pub close : String → W → Result (Unit {0}) × W
  pub marshal : OutputValue → Result String

-- What the outputs of a reference are: registry, repository, identifier and text.
pub record RefText : Type 0 where
  pub registry : String
  pub repository : String
  pub identifier : String
  pub full : String

-- the values of Outputs.Write of fetch and of build
unfoldable pub fetched_values : String → RefText → String → List OutputValue
unfolding join_path
fetched_values download_dir ref step_path =
    record { name = "fetched_step_path"; value = text (join_path (download_dir ∷ step_path ∷ [])) }
    ∷ record { name = "ref"; value = text ref.full }
    ∷ []

unfoldable pub built_values : RefText → (algorithm hash value : String) → List OutputValue
built_values ref algorithm hash value =
    record { name = "registry"; value = text ref.registry }
    ∷ record { name = "repository"; value = text ref.repository }
    ∷ record { name = "tag"; value = text ref.identifier }
    ∷ record { name = "ref"; value = text ref.full }
    ∷ record { name = "digest"; value = digest_struct algorithm hash value }
    ∷ []

module _ {W : Type 0} (files : OutputFile W) where
  -- writeValue
  unfoldable pub write_value : String → OutputValue → W → Result (Unit {0}) × W
  write_value file v w =
      and_then (wrapping "marshal json: %w" [] (files.marshal v), w)
        λ json w1.
          and_then (wrapped "write json to file: %w" [] (files.write_text file json w1))
            λ u w2. wrapped "write new line to file: %w" [] (files.write_text file "\n" w2)

  -- the loop over the values, and the close behind it
  unfoldable pub write_values : String → List OutputValue → W → Result (Unit {0}) × W
  unfolding write_value
  write_values file [] w = wrapped "close output file: %w" [] (files.close file w)
  write_values file (v ∷ vs) w =
      and_then (wrapped "value %s: %w" (v.name ∷ []) (write_value file v w))
        λ u w1. write_values file vs w1

  -- Outputs.Write of fetch
  unfoldable pub write_fetch_outputs :
      String → String → RefText → String → W → Result (Unit {0}) × W
  unfolding fetched_values write_values
  write_fetch_outputs file download_dir ref step_path w =
      and_then (wrapped "opening output file: %w" [] (files.create file w)) λ u w1.
        deferring (λ w2. (files.close file w2).1)
          (write_values file (fetched_values download_dir ref step_path) w1)

  -- Outputs.Write of build, with the digest of the index
  unfoldable pub write_build_outputs :
      String → RefText → Result (String × String × String) → W → Result (Unit {0}) × W
  unfolding built_values write_values
  write_build_outputs file ref digest w =
      and_then (wrapped "opening output file: %w" [] (files.create file w)) λ u w1.
        deferring (λ w2. (files.close file w2).1)
          (and_then (wrapping "getting digest of image index: %w" [] digest, w1)
            λ d w2. write_values file (built_values ref d.0 d.1 d.2) w2)
