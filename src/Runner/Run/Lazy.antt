-- ===== src/Runner/Run/Lazy.antt =====
-- lazily_loaded_step.go: fetching, parsing and running a referenced step.
use step_runner.Common.{
  ℕ, String, none, some, [], ◌∷◌, Map, lookup, Error, errorf, wrap_error, Result, ok, err, ◌>>=◌,
  wrapping,
}
use step_runner.Value.{Value, Variable, new_variable, assign}
use step_runner.Proto.{InputSpec, Step, step_fields, step_reference}
use step_runner.Expression.Dig.{Object, Codec}
use step_runner.Expression.Interpolate.{expand}
use step_runner.Environment.{add_lexical_scope}
use step_runner.Runner.Host.{M, and_then, try, attempt, pure, give, lift, wrapped, Host}
use step_runner.Runner.Model.{
  SpecDef, Params, new_inputs_with_default, NamedReference, LazyStep, Parsed,
}
use step_runner.Runner.Resource.{fetch}
use step_runner.Runner.Context.{
  StepsContext, env_values, seen_by, expand_texts, new_steps_context, cleanup,
}
use step_runner.Runner.Parser.{parse}
use step_runner.Runner.Run.Builder.{Outcome, no_result}

-- buildInputVars
unfoldable pub build_input_vars : Map Value → Map InputSpec → Result (Map Variable)
build_input_vars [] specs = ok []
build_input_vars ((name, v) ∷ m) specs = elim (lookup name specs) [
  | none ↦ err (errorf "step does not accept input with name %q" (name ∷ []))
  | some input ↦
      build_input_vars m specs >>= λ rest. ok ((name, new_variable v input.sensitive) ∷ rest)
]

-- the loop that expands and assigns the inputs
unfoldable pub expand_inputs : Codec → Object → Map Variable → Result (Map Variable)
expand_inputs codec obj [] = ok []
expand_inputs codec obj ((name, v) ∷ m) =
    wrapping "failed to load: expand input %q: %w" (name ∷ []) (expand codec obj v.value) >>= λ res.
    wrapping "failed to load: assign input %q: %w" (name ∷ []) (assign v res) >>= λ assigned.
    expand_inputs codec obj m >>= λ rest. ok ((name, assigned) ∷ rest)

pub record LoadedStep : Type 0 where
  pub step : Parsed
  pub params : Params
  pub spec_def : SpecDef

module _ {W : Type 0} where
  -- EnvWithLexicalScope
  abbrev pub env_with_lexical_scope : StepsContext → Map String → M W ℕ
  env_with_lexical_scope c vars s =
      let (e, h) = add_lexical_scope c.env vars s.heap in some (e, record s { heap = h })

-- the inputs and the environment of the reference, as the parent sees them
unfoldable pub load_params : Codec → Object → Step → SpecDef → Result (Map Variable × Map String)
load_params codec obj ref sd =
    wrapping "failed to load: %w" [] (build_input_vars (step_fields ref).inputs sd.spec.inputs)
    >>= λ vars. expand_inputs codec obj vars >>= λ inputs.
        expand_texts codec obj (λ k. wrap_error "failed to load: env %q: %w" (k ∷ []))
          (step_fields ref).env
        >>= λ env. ok (inputs, env)

module _ {W : Type 0} (host : Host W) (fuel : ℕ) where
  -- loadStep
  unfoldable pub load_step : LazyStep → StepsContext → M W (Result LoadedStep)
  load_step lazy c = and_then (seen_by c) λ obj.
      try (wrapped "failed to load: %w" [] (fetch host fuel lazy.resource obj)) λ sd.
        try (lift (load_params host.codec obj lazy.reference sd)) λ loaded.
          and_then (env_with_lexical_scope c loaded.1) λ e. and_then (env_values e) λ env.
            let params : Params = record { inputs = loaded.0; env = env } in
            let named : NamedReference = record {
              name = (step_fields lazy.reference).name;
              ref = some (step_reference lazy.reference);
            } in
            try (lift (wrapping "failed to load: %w" [] (parse sd params named)))
              λ step. give (record { step = step; params = params; spec_def = sd })

  -- `fmt.Errorf("%s: %w", s.Describe(), err)`
  abbrev describe : LazyStep → Error → Error
  describe lazy e = wrap_error "step %q: %w" ((step_fields lazy.reference).name ∷ []) e

  abbrev described : LazyStep → Outcome → Outcome
  described lazy o = elim o.error [
    | none ↦ o
    | some e ↦ record o { error = some (describe lazy e) }
  ]

  -- LazilyLoadedStep.Run: the step runs in a context of its own, which is cleaned up behind it
  unfoldable pub run_lazy :
      (Parsed → StepsContext → M W (Outcome × StepsContext))
      → LazyStep
      → StepsContext
      → M W (Outcome × StepsContext)
  run_lazy run_parsed lazy parent =
      attempt (load_step lazy parent) (λ e. pure (no_result (describe lazy e), parent))
        λ loaded. and_then (env_with_lexical_scope parent loaded.params.env) λ e.
          attempt
            (new_steps_context host parent.global_ctx loaded.spec_def.dir
              (new_inputs_with_default loaded.params loaded.spec_def.spec.inputs) e)
            (λ e'. pure (no_result (describe lazy e'), parent))
            λ c.
              and_then (run_parsed loaded.step c)
                λ ran. and_then (cleanup host ran.1) λ _. pure (described lazy ran.0, parent)
