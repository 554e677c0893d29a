-- ===== src/Runner/Context.antt =====
-- global_context.go and steps_context.go.
use step_runner.Common.{
  ℕ, String, Option, none, some, List, [], ◌∷◌, Map, map, put, values, append, Error, wrap_error,
  Result, ok, err, ◌>>=◌,
}
use step_runner.Value.{Value}
use step_runner.Proto.{StepResult, result_fields, ResultStep}
use step_runner.Expression.Dig.{InterpolationContext, StepResultView, Object, context, Codec}
use step_runner.Expression.Interpolate.{expand_string}
use step_runner.Environment.{Heap, add_lexical_scope, mutate}
use step_runner.Environment
use step_runner.Runner.Host.{M, try, give, in_world, wrapped, Host}

pub record GlobalContext : Type 0 where
  pub work_dir : String
  pub job : Map String
  pub env : ℕ

pub record StepsContext : Type 0 where
  pub global_ctx : GlobalContext
  pub step_dir : String
  pub output_file : String
  pub export_file : String
  pub env : ℕ
  pub inputs : Map (Option Value)
  pub steps : Map StepResult

module _ {W : Type 0} where
  -- env.Values()
  abbrev pub env_values : ℕ → M W (Map String)
  env_values e s = elim (Environment.values s.heap e) [ none ↦ none | some m ↦ some (m, s) ]

  -- env.Mutate(other)
  abbrev pub mutate_env : ℕ → Option ℕ → M W (Unit {0})
  mutate_env e other s = elim (mutate e other s.heap) [
    | none ↦ none
    | some h ↦ some (tt, record s { heap = h })
  ]

module _ {W : Type 0} (host : Host W) where
  unfoldable pub new_steps_context :
      GlobalContext → String → Map (Option Value) → ℕ → M W (Result StepsContext)
  new_steps_context global_ctx dir inputs env =
      try (wrapped "creating steps context: output file: %w" [] (in_world host.new_step_file))
        λ output_file.
          try (wrapped "creating steps context: export file: %w" [] (in_world host.new_step_file))
            λ export_file. give (record {
              global_ctx = global_ctx;
              step_dir = dir;
              output_file = output_file;
              export_file = export_file;
              env = env;
              inputs = inputs;
              steps = [];
            })

  abbrev pub cleanup : StepsContext → M W (Unit {0})
  cleanup c = in_world λ w. (tt, host.remove_file c.export_file (host.remove_file c.output_file w))

abbrev pub result_views : Map StepResult → Map StepResultView
result_views m = map (λ b. (b.0, record { outputs = (result_fields b.1).outputs })) m

-- View
abbrev pub view_of : StepsContext → Map String → InterpolationContext
view_of c env = record {
  env = env;
  export_file = c.export_file;
  inputs = c.inputs;
  job = c.global_ctx.job;
  output_file = c.output_file;
  step_dir = c.step_dir;
  step_results = result_views c.steps;
  work_dir = c.global_ctx.work_dir;
}

abbrev pub seen_by : {W : Type 0} → StepsContext → M W Object
seen_by c s = elim (Environment.values s.heap c.env) [
  | none ↦ none
  | some m ↦ some (context (view_of c m), s)
]

-- A loop that expands the values of a map of texts, with what it wraps an error in.
unfoldable pub expand_texts :
    Codec → Object → (String → Error → Error) → Map String → Result (Map String)
expand_texts codec obj wrapped [] = ok []
expand_texts codec obj wrapped ((key, text) ∷ m) = elim (expand_string codec obj text) [
  | err e ↦ err (wrapped key e)
  | ok expanded ↦ expand_texts codec obj wrapped m >>= λ rest. ok ((key, expanded) ∷ rest)
]

module _ {W : Type 0} (host : Host W) where
  -- ExpandAndApplyEnv: the context with the environment that has the new scope
  unfoldable pub expand_and_apply_env : StepsContext → Map String → M W (Result StepsContext)
  expand_and_apply_env c env s = elim (seen_by c s) [
    | none ↦ none
    | some (obj, s') ↦
        elim (expand_texts host.codec obj (λ key. wrap_error "env variable %q: %w" (key ∷ []))
          env) [
            | err e ↦ some (err e, s')
            | ok expanded ↦
                let (e, h) = add_lexical_scope c.env expanded s'.heap in
                some (ok (record c { env = e }), record s' { heap = h })
          ]
  ]

-- RecordResult: a result without a step is not kept
abbrev record_at : Option ResultStep → StepResult → StepsContext → StepsContext
record_at none r c = c
record_at (some step) r c = record c { steps = put step.name r c.steps }

unfoldable pub record_result : Option StepResult → StepsContext → StepsContext
record_result none c = c
record_result (some r) c = record_at (result_fields r).step r c

-- StepResults, in the order of the map
abbrev pub step_results : StepsContext → List StepResult
step_results c = values c.steps

-- GetEnvList
abbrev pub env_list : Map String → List String
env_list m = map (λ b. append b.0 (append "=" b.1)) m
