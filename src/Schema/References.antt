-- ===== src/Schema/References.antt =====
-- schema/v1/reference.go: the long form of a step's location.
use step_runner.Common.{
  String, Option, none, some, List, [], ◌∷◌, Map, errorf, Result, ok, err, append, split, str_eq,
  if◌then◌else◌,
}
use step_runner.Value.{Value}
use step_runner.Proto
use step_runner.Proto.{
  local, git, dist, spec_def, OutputMethod, DefinitionType, ReferenceFields, Reference, reference,
  no_step_path, path_exp, no_spec_definition, spec_definition, definition, step, no_steps, more,
}
use step_runner.Schema.Model.{GitReference, OciReference}
use step_runner.Schema.Model
use step_runner.Schema.ShortReference.{default_https, default_filename}

abbrev or_default : String → Option String → String
or_default d none = d
or_default d (some s) = s

abbrev split_dir : Option String → List String
split_dir none = []
split_dir (some dir) = split b'/' dir

unfoldable pub compile_git : GitReference → Result Reference
compile_git g = ok (
    reference
      (record {
        protocol = git;
        url = default_https g.url;
        path = split_dir g.dir;
        filename = or_default default_filename g.file;
        version = g.rev;
        step_path = no_step_path;
      })
      no_spec_definition)

abbrev pub fetch_step_name : String → String
fetch_step_name step_name = append "fetch_step_" step_name

-- the step that fetches the image
fetch_step : OciReference → String → Map String → Proto.Step
fetch_step o step_name env =
    step
      (record {
        name = fetch_step_name step_name;
        inputs =
            ("registry", Value.string o.registry)
            ∷ ("repository", Value.string o.repository)
            ∷ ("tag", Value.string (if str_eq o.tag "" then "latest" else o.tag))
            ∷ ("step_path", Value.string (or_default "" o.dir))
            ∷ [];
        env = env;
      })
      (reference
        (record {
          protocol = dist;
          url = "";
          path = "step" ∷ "oci" ∷ "fetch" ∷ [];
          filename = "step.yml";
          version = "";
          step_path = no_step_path;
        })
        no_spec_definition)

-- where the fetched step is: an output of the step before
abbrev pub fetched_path : String → String
fetched_path step_name =
    append "${{steps." (append (fetch_step_name step_name) ".outputs.fetched_step_path}}")

-- the step that runs what was fetched
fetched_step : OciReference → String → Map Value → Map String → Proto.Step
fetched_step o step_name inputs env =
    step (record { name = step_name; inputs = inputs; env = env })
      (reference
        (record {
          protocol = local;
          url = "";
          path = [];
          filename = or_default "step.yml" o.file;
          version = "";
          step_path = path_exp (fetched_path step_name);
        })
        no_spec_definition)

unfoldable pub compile_oci : OciReference → String → Map Value → Map String → Result Reference
unfolding fetch_step fetched_step
compile_oci o step_name inputs env = ok (
    reference
      (record {
        protocol = spec_def;
        url = "";
        path = [];
        filename = "";
        version = "";
        step_path = no_step_path;
      })
      (spec_definition (record { inputs = []; outputs = []; output_method = OutputMethod.delegate })
        (definition
          (record {
            type = DefinitionType.steps;
            exec = none;
            outputs = [];
            env = [];
            delegate = step_name;
          })
          (more (fetch_step o step_name env)
            (more (fetched_step o step_name inputs env) no_steps)))))

compile_either :
    Option GitReference → Option OciReference → String → Map Value → Map String → Result Reference
compile_either none none step_name inputs env =
    err (errorf "compiling reference: git or oci not specified" [])
compile_either (some g) (some o) step_name inputs env =
    err (errorf "compiling reference: git and oci specified" [])
compile_either (some g) none step_name inputs env = compile_git g
compile_either none (some o) step_name inputs env = compile_oci o step_name inputs env

-- Reference.compile
unfoldable pub compile_reference :
    Model.Reference → String → Map Value → Map String → Result Reference
unfolding compile_either
compile_reference r step_name inputs env = compile_either r.git r.oci step_name inputs env
