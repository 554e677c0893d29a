-- ===== src/Runner/Resource.antt =====
-- step_resource_parser.go and the Fetch of each resource.
use step_runner.Common.{
  ℕ, zero, suc, String, none, List, [], ◌∷◌, errorf, panic, Result, ok, err, ◌>>=◌, join_path,
  has_prefix, if◌then◌else◌, wrapping,
}
use step_runner.Proto.{
  ReferenceProtocol, ReferenceFields, StepPath, Reference, reference, SpecDefinition,
  no_spec_definition, spec_definition,
}
use step_runner.Expression.Dig.{Object, nil_context}
use step_runner.Expression.Interpolate.{expand_string}
use step_runner.Schema.Spec.{compile_spec}
use step_runner.Schema.Steps.{compile_definition}
use step_runner.Schema.ShortReference.{compile_short}
use step_runner.Runner.Host.{M, try, give, lift, in_world, wrapped, Host}
use step_runner.Runner.Model.{SpecDef, Resource, file_system, git, dist, dynamic, fixed}

-- stepPath
abbrev pub path_in : StepPath → List String → String
path_in (StepPath.path_exp e) path = e
path_in (StepPath.paths parts) path = join_path parts
path_in StepPath.no_step_path path = join_path path

abbrev pub step_path : ReferenceFields → String
step_path r = path_in r.step_path r.path

fixed_resource : SpecDefinition → String → Result Resource
fixed_resource no_spec_definition dir = err (panic "nil SpecDef")
fixed_resource (spec_definition spec def) dir =
    ok (fixed (record { spec = spec; definition = def; dir = dir }))

parse_protocol : ReferenceProtocol → String → ReferenceFields → SpecDefinition → Result Resource
unfolding fixed_resource
parse_protocol ReferenceProtocol.local dir r d = ok (file_system dir (step_path r) r.filename)
parse_protocol ReferenceProtocol.git dir r d = ok (git r.url r.version (step_path r) r.filename)
parse_protocol ReferenceProtocol.dist dir r d = ok (dist (step_path r) r.filename)
parse_protocol ReferenceProtocol.dynamic dir r d = ok (dynamic r.url)
parse_protocol ReferenceProtocol.spec_def dir r d = fixed_resource d (step_path r)
parse_protocol _ dir r d = err (errorf "unknown step reference protocol: %s" [])

-- StepResourceParser.Parse
unfoldable pub parse_resource : String → Reference → Result Resource
unfolding parse_protocol
parse_resource dir (reference r d) = parse_protocol r.protocol dir r d

module _ {W : Type 0} (host : Host W) where
  -- FileSystemStepResource.stepDir
  pub step_dir : Object → String → String → Result String
  step_dir seen work_dir path =
      wrapping "expanding step path %q: %w" [] (expand_string host.codec seen path) >>= λ expanded.
      if has_prefix expanded "/" then ok expanded else ok (join_path (work_dir ∷ expanded ∷ []))

  pub fetch_file : String → String → String → Object → M W (Result SpecDef)
  unfolding step_dir
  fetch_file work_dir path filename seen =
      try (lift (wrapping "fetching step from file: %w" [] (step_dir seen work_dir path))) λ dir.
        let step_file = join_path (dir ∷ filename ∷ []) in
        try (wrapped "loading file %q: %w" (step_file ∷ []) (in_world (host.load_steps step_file)))
          λ read.
            try
              (lift (
                wrapping "compiling proto specification: %w" []
                  (compile_spec host.compiler read.0)))
              λ spec.
                try
                  (lift (
                    wrapping "compiling proto definition: %w" []
                      (compile_definition host.compiler read.1)))
                  λ def. give (record { spec = spec; definition = def; dir = dir })

  -- The `Fetch` of each resource. Git and dist resources pass on a nil context. A dynamic reference is
  -- expanded to another resource: the fuel bounds how often.
  unfoldable pub fetch : ℕ → Resource → Object → M W (Result SpecDef)
  unfolding fetch_file
  fetch zero r seen = λ s. none
  fetch (suc fuel) (file_system work_dir path filename) seen =
      fetch_file work_dir path filename seen
  fetch (suc fuel) (git url version dir filename) seen =
      try
        (lift (
          wrapping "fetching git step: interpolating url: %w" []
            (expand_string host.codec seen url)))
        λ expanded.
          try (wrapped "fetching git step: %w" [] (in_world (host.git_get expanded version)))
            λ root. wrapped "fetching git step: %w" [] (fetch_file root dir filename nil_context)
  fetch (suc fuel) (dist dir filename) seen =
      try (wrapped "fetching dist step: %w" [] (in_world (host.dist_fetch dir)))
        λ root. wrapped "fetching dist step: %w" [] (fetch_file root dir filename nil_context)
  fetch (suc fuel) (dynamic short_ref) seen =
      try
        (lift (
          wrapping "fetching step: interpolating reference: %w" []
            (expand_string host.codec seen short_ref)))
        λ short.
          try
            (lift (wrapping "fetching step: compiling step reference: %w" [] (compile_short short)))
            λ ref.
              try (lift (wrapping "fetching step: %w" [] (parse_resource "" ref)))
                λ resource. fetch fuel resource seen
  fetch (suc fuel) (fixed spec_def) seen = give spec_def
