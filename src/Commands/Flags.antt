-- ===== src/Commands/Flags.antt =====
-- cmd/run/run.go: the options of the command, and the steps in YAML that stand for them.
use step_runner.Common.{
  String, Bool, List, [], ◌∷◌, Map, has_prefix, join, errorf, Result, ok, err, str_eq,
  if◌then◌else◌, ◌++◌, map, ◌>>=◌, ◌||◌,
}

pub record Options : Type 0 where
  pub step : String
  pub oci_registry : String
  pub oci_repository : String
  pub oci_tag : String
  pub oci_dir : String
  pub oci_filename : String
  pub git_url : String
  pub git_rev : String
  pub git_dir : String
  pub inputs : Map String
  pub env : Map String
  pub job : Map String
  pub text_proto_step_file : String
  pub write_step_results : Bool
  pub step_results_file : String
  pub step_results_format : String

-- the loop of yamlObject: one line of text for each value
abbrev pub entries : Map String → List String
entries values = map (λ b. join "" ("    " ∷ b.0 ∷ ": " ∷ b.1 ∷ "\n" ∷ [])) values

-- yamlObject
unfoldable pub yaml_object : String → Map String → String
unfolding join
yaml_object name [] = ""
yaml_object name (v ∷ values) = join "" (join "" ("  " ∷ name ∷ ":\n" ∷ []) ∷ entries (v ∷ values))

-- a line of a reference, and one that is left out if its value is empty
abbrev pub field_line : String → String → List String
field_line name value = ("      " ∷ name ∷ ": " ∷ value ∷ "\n" ∷ [])

abbrev pub optional_line : String → String → List String
optional_line name value = if str_eq value "" then [] else field_line name value

-- the chain of conditions in yamlStep
unfoldable pub step_text : Options → Result String
unfolding has_prefix join
step_text o =
    if has_prefix o.step "step:"
    then ok (join "" ("- " ∷ o.step ∷ "\n" ∷ []))
    else if str_eq o.step ""
    then (if str_eq o.git_url ""
        then (if str_eq o.oci_registry ""
            then err (errorf "no step specified" [])
            else ok (
                join "" (
                  ("- step:\n" ∷ "    oci:\n" ∷ [])
                  ++ (field_line "registry" o.oci_registry
                      ++ (field_line "repository" o.oci_repository
                          ++ (field_line "tag" o.oci_tag
                              ++ (optional_line "dir" o.oci_dir
                                  ++ optional_line "file" o.oci_filename)))))))
        else ok (
            join "" (
              ("- step:\n" ∷ "    git:\n" ∷ [])
              ++ (field_line "url" o.git_url
                  ++ (optional_line "rev" o.git_rev ++ optional_line "dir" o.git_dir)))))
    else ok (join "" ("- step: " ∷ o.step ∷ "\n" ∷ []))

-- yamlStep
unfoldable pub yaml_step : Options → Result String
unfolding step_text yaml_object
yaml_step o = step_text o >>= λ text.
    ok (join "" (text ∷ yaml_object "inputs" o.inputs ∷ yaml_object "env" o.env ∷ []))

-- excludeJobVars
unfoldable pub exclude_job_vars : String → Bool
unfolding has_prefix
exclude_job_vars name =
    has_prefix name "CI_"
    || has_prefix name "GITLAB_"
    || has_prefix name "FF_"
    || has_prefix name "DOCKER_ENV_"
