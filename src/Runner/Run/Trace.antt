-- ===== src/Runner/Run/Trace.antt =====
-- sequence_of_steps.go: the runs of a sequence, as a relation.
use native.Mathlib.Omega.{arith}
use step_runner.Common.{
  ◌≡◌, refl, Option, none, some, Option-cases, List, [], ◌∷◌, ◌++◌, Error, inl, inr, ap, sym, ◌∙◌,
}
use mathlib.Core.List.{append_assoc, append-nil}
use step_runner.Proto.{StepResult}
use step_runner.Runner.Host.{State, M, Host}
use step_runner.Runner.Model.{LazyStep, Loaded}
use step_runner.Runner.Context.{StepsContext, record_result}
use step_runner.Runner.Run.Builder.{StepResultBuilder, with_sub_step_result, Outcome, failed}
use step_runner.Runner.Run.Sequence.{run_steps, finish_sequence}

module _ {W : Type 0} (run_step : LazyStep → StepsContext → M W (Outcome × StepsContext)) where
  abbrev pub observed : Option StepResult → List StepResult
  observed none = []
  observed (some r) = r ∷ []

  -- The steps run one after another in the context that the ones before left, each result is
  -- recorded, and the first error ends the run: what they observe, how they end, and in which state.
  pub data Runs
      : List LazyStep
        → StepsContext
        → State W
        → List StepResult
        → Option Error
        → StepsContext
        → State W
        → Type 0 where
    done : {c : StepsContext} {s : State W} → Runs [] c s [] none c s
    stopped :
        {step : LazyStep} {steps : List LazyStep} {c c₁ : StepsContext} {s s₁ : State W}
        {o : Outcome} {e : Error}
        → run_step step c s ≡ some ((o, c₁), s₁)
        → o.error ≡ some e
        → Runs (step ∷ steps) c s (observed o.result) (some e) (record_result o.result c₁) s₁
    next :
        {step : LazyStep} {steps : List LazyStep} {c c₁ c₂ : StepsContext} {s s₁ s₂ : State W}
        {o : Outcome} {rs : List StepResult} {e : Option Error}
        → run_step step c s ≡ some ((o, c₁), s₁)
        → o.error ≡ none
        → Runs steps (record_result o.result c₁) s₁ rs e c₂ s₂
        → Runs (step ∷ steps) c s (observed o.result ++ rs) e c₂ s₂

module _ {W : Type 0} (host : Host W)
    (run_step : LazyStep → StepsContext → M W (Outcome × StepsContext)) (l : Loaded) where
  abbrev pub and_observed : StepResultBuilder → List StepResult → StepResultBuilder
  and_observed b rs = record b { sub_step_results = b.sub_step_results ++ rs }

  abbrev pub Ends :
      StepResultBuilder
      → Option Error
      → StepsContext × State W
      → (Outcome × StepsContext) × State W
      → Type 0
  Ends b (some e) (c, s) ran = ((failed l b e, c), s) ≡ ran
  Ends b none (c, s) ran = finish_sequence host run_step l b c s ≡ some ran

  pub record IsRun (steps : List LazyStep) (b : StepResultBuilder) (c : StepsContext) (s : State W)
      (ran : (Outcome × StepsContext) × State W) : Type 0 where
    pub results : List StepResult
    pub error : Option Error
    pub last : StepsContext × State W
    pub runs : Runs run_step steps c s results error last.0 last.1
    pub ends : Ends (and_observed b results) error last ran

  and_observed-nil : (b : StepResultBuilder) → and_observed b [] ≡ b
  and_observed-nil b = ap (λ rs. record b { sub_step_results = rs }) (append-nil b.sub_step_results)

  with_sub_step_result-observed :
      (r : Option StepResult) (b : StepResultBuilder)
      → with_sub_step_result r b ≡ and_observed b (observed run_step r)
  with_sub_step_result-observed none b = sym (and_observed-nil b)
  with_sub_step_result-observed (some r) b = refl

  module _ (step : LazyStep) (steps : List LazyStep) (b : StepResultBuilder) (c c₁ : StepsContext)
      (s s₁ : State W) (o : Outcome) (made : run_step step c s ≡ some ((o, c₁), s₁)) where
    run_steps-stopped :
        (e : Error)
        → o.error ≡ some e
        → run_steps host run_step l (step ∷ steps) b c s
          ≡ some (
            (failed l (and_observed b (observed run_step o.result)) e, record_result o.result c₁),
            s₁,
          )
    unfolding run_steps
    run_steps-stopped e raised = ground (arith, with_sub_step_result-observed o.result b)

    run_steps-next :
        o.error ≡ none
        → run_steps host run_step l (step ∷ steps) b c s
          ≡ run_steps host run_step l steps
              (and_observed b (observed run_step o.result))
              (record_result o.result c₁)
              s₁
    unfolding run_steps
    run_steps-next fine = ground (arith, with_sub_step_result-observed o.result b)

  -- What the loop over the steps returns is what a run of the steps, one after another, comes to: the
  -- results are observed in the order of the steps, the first error ends the loop and is the error
  -- of the failed sequence, and without one the outputs of the sequence are read in the last state.
  pub run_steps-IsRun :
      (steps : List LazyStep) (b : StepResultBuilder) (c : StepsContext) (s : State W)
      (ran : (Outcome × StepsContext) × State W)
      → run_steps host run_step l steps b c s ≡ some ran
      → IsRun steps b c s ran
  unfolding run_steps
  run_steps-IsRun [] b c s ran h = record {
    results = [];
    error = none;
    last = (c, s);
    runs = done;
    ends = rw (and_observed-nil b) h;
  }
  run_steps-IsRun (step ∷ steps) b c s ran h = elim (Option-cases (run_step step c s)) [
    | inl never ↦ ground arith
    | inr (((o, c₁), s₁), made) ↦ elim (Option-cases o.error) [
      | inr (e, raised) ↦
          let ends : some _ ≡ some ran =
            sym (run_steps-stopped step steps b c c₁ s s₁ o made e raised) ∙ h in
          record {
            results = observed run_step o.result;
            error = some e;
            last = (record_result o.result c₁, s₁);
            runs = stopped made raised;
            ends = ground arith;
          }
      | inl fine ↦
          let rest =
            run_steps-IsRun steps (and_observed b (observed run_step o.result))
              (record_result o.result c₁) s₁ ran
              (sym (run_steps-next step steps b c c₁ s s₁ o made fine) ∙ h) in
          record {
            results = observed run_step o.result ++ rest.results;
            error = rest.error;
            last = rest.last;
            runs = next made fine rest.runs;
            ends =
                rw (← append_assoc b.sub_step_results (observed run_step o.result) rest.results)
                  rest.ends;
          }
    ]
  ]

  -- How the loop ends behind a run of its steps.
  abbrev pub end_of :
      StepResultBuilder
      → Option Error
      → StepsContext
      → State W
      → Option ((Outcome × StepsContext) × State W)
  end_of b (some e) c s = some ((failed l b e, c), s)
  end_of b none c s = finish_sequence host run_step l b c s

  -- Where the steps have a run, one after another, the loop over the steps comes to it: it returns the
  -- failed sequence with the first error, or it goes on to read the outputs in the last state.
  pub Runs-run_steps :
      (steps : List LazyStep) (b : StepResultBuilder) (c c' : StepsContext) (s s' : State W)
      (rs : List StepResult) (e : Option Error)
      → Runs run_step steps c s rs e c' s'
      → run_steps host run_step l steps b c s ≡ end_of (and_observed b rs) e c' s'
  Runs-run_steps _ b _ _ _ _ _ _ done = unfold run_steps in rw (and_observed-nil b) refl
  Runs-run_steps _ b c _ s _ _ _ (stopped {step} {steps} {c₁ = c₁} {s₁ = s₁} {o} {e} made raised) =
      run_steps-stopped step steps b c c₁ s s₁ o made e raised
  Runs-run_steps _ b c c' s s' _ e
        (next {step} {steps} {c₁ = c₁} {s₁ = s₁} {o} {rs} made fine more) =
      run_steps-next step steps b c c₁ s s₁ o made fine
      ∙ Runs-run_steps steps (and_observed b (observed run_step o.result))
          (record_result o.result c₁) c' s₁ s' rs e more
      ∙ ap (λ all. end_of (record b { sub_step_results = all }) e c' s')
          (append_assoc b.sub_step_results (observed run_step o.result) rs)
