-- ===== src/Runner/Run/Reports.antt =====
-- executable_step.go and sequence_of_steps.go: the status that a run reports.
use native.Mathlib.Omega.{arith}
use step_runner.Common.{
  [], ◌∷◌, ℕ, zero, suc, ◌≡◌, refl, Bool, true, false, Option, none, some, Option-cases, List, [],
  Error, Result, ok, err, wrap_error, String, ap, Map, inl, inr,
}
use step_runner.Proto.{Status, success, failure, StepResult, result_fields}
use step_runner.Runner.Host.{State, M, Host, and_then, attempt, pure, in_world}
use step_runner.Runner.Model.{LazyStep, Loaded, env_of, Parsed, executable, sequence}
use step_runner.Runner.Context.{StepsContext, env_values, expand_and_apply_env}
use step_runner.Runner.Run.Builder.{
  StepResultBuilder, new_builder, with_exec_result, build_result, Outcome, failed, succeeded,
  no_result,
}
use step_runner.Runner.Run.Executable.{
  Executed, after_command, run_command_in, exec_step_command, run_expanded, run_executable,
  finish_executable,
}
use step_runner.Runner.Run.Sequence.{run_sequence, run_steps_in, run_steps, finish_sequence}
use step_runner.Runner.Run.Trace.{run_steps-IsRun, Ends}
use step_runner.Runner.Run.Lazy.{run_lazy}
use step_runner.Runner.Run.{run}

abbrev pub is_success : Status → Bool
is_success success = true
is_success _ = false

abbrev pub is_failure : Status → Bool
is_failure failure = true
is_failure _ = false

-- A result without an error says success, and one with an error, if there is one, says failure.
abbrev pub reports : Option StepResult → Option Error → Bool
reports none none = false
reports none (some e) = true
reports (some r) none = is_success (result_fields r).status
reports (some r) (some e) = is_failure (result_fields r).status

abbrev pub IsReport : {A : Type 0} → Outcome × A → Type 0
IsReport ran = reports ran.0.result ran.0.error ≡ true

module _ {W : Type 0} where
  -- Whatever a computation returns has the property.
  abbrev Gives : {A : Type 0} → (A → Type 0) → M W A → Type 0
  Gives P m = (s s' : State W) (a : _) → m s ≡ some (a, s') → P a

  Gives-pure : {A : Type 0} (P : A → Type 0) (a : A) → P a → Gives P (pure a)
  Gives-pure P a p s s' b h = let same : a ≡ b = ground arith in rw (← same) p

  Gives-and_then :
      {A B : Type 0} (P : B → Type 0) (m : M W A) (f : A → M W B)
      → ((a : A) → Gives P (f a))
      → Gives P (and_then m f)
  Gives-and_then P m f each s s' b h = elim (Option-cases (m s)) [
    | inl never ↦ ground arith
    | inr ((a, s₁), made) ↦ each a s₁ s' b (ground arith)
  ]

  Gives-attempt :
      {A B : Type 0} (P : B → Type 0) (m : M W (Result A)) (g : Error → M W B) (f : A → M W B)
      → ((e : Error) → Gives P (g e))
      → ((a : A) → Gives P (f a))
      → Gives P (attempt m g f)
  Gives-attempt P m g f failing each s s' b h = elim (Option-cases (m s)) [
    | inl never ↦ ground arith
    | inr ((ok a, s₁), made) ↦ each a s₁ s' b (ground arith)
    | inr ((err e, s₁), made) ↦ failing e s₁ s' b (ground arith)
  ]

failed-IsReport :
    {A : Type 0} (l : Loaded) (b : StepResultBuilder) (e : Error) (a : A)
    → IsReport (failed l b e, a)
unfolding build_result
failed-IsReport l b e a = refl

succeeded-IsReport :
    {A : Type 0} (l : Loaded) (b : StepResultBuilder) (a : A) → IsReport (succeeded l b, a)
unfolding build_result
succeeded-IsReport l b a = refl

module _ {W : Type 0} (host : Host W) (l : Loaded) where
  finish_executable-IsReport :
      (b : StepResultBuilder) (c : StepsContext) → Gives IsReport (finish_executable host l b c)
  unfolding finish_executable build_result
  finish_executable-IsReport b c s s' ran h = ground arith

  after_command-IsReport :
      (c : StepsContext) (env : Map String) (executed : Executed)
      → Gives IsReport (after_command host l c env executed)
  unfolding after_command
  after_command-IsReport c env executed s s' ran h =
      let b = with_exec_result executed.result (record new_builder { env = env }) in
      elim (Option-cases executed.error) [
        | inr (e, raised) ↦
            Gives-pure IsReport (failed l b (wrap_error "exec: %w" [] e), c)
              (failed-IsReport l b (wrap_error "exec: %w" [] e) c) s s' ran (rw raised at h)
        | inl fine ↦ finish_executable-IsReport b c s s' ran (rw fine at h)
      ]

  run_command_in-IsReport : (c : StepsContext) → Gives IsReport (run_command_in host l c)
  unfolding run_command_in
  run_command_in-IsReport c =
      Gives-and_then IsReport (env_values c.env)
        (λ env. and_then (exec_step_command host c l) (after_command host l c env))
        λ env.
          Gives-and_then IsReport (exec_step_command host c l) (after_command host l c env)
            (after_command-IsReport c env)

  run_expanded-IsReport : (c : StepsContext) → Gives IsReport (run_expanded host l c)
  unfolding run_expanded
  run_expanded-IsReport c =
      Gives-attempt IsReport (expand_and_apply_env host c (env_of l.spec_def))
        (λ e. pure (failed l new_builder (wrap_error "expand step env: %w" [] e), c))
        (run_command_in host l)
        (λ e.
          Gives-pure IsReport (failed l new_builder (wrap_error "expand step env: %w" [] e), c)
            (failed-IsReport l new_builder (wrap_error "expand step env: %w" [] e) c))
        run_command_in-IsReport

  run_executable-IsReport : (c : StepsContext) → Gives IsReport (run_executable host l c)
  unfolding run_executable
  run_executable-IsReport c =
      Gives-attempt IsReport (in_world (host.write_log "Running step %q" (l.loaded_from.name ∷ [])))
        (λ e. pure (no_result e, c)) (λ u. run_expanded host l c)
        (λ e. Gives-pure IsReport (no_result e, c) refl) λ u. run_expanded-IsReport c

  module _ (run_step : LazyStep → StepsContext → M W (Outcome × StepsContext)) where
    finish_sequence-IsReport :
        (b : StepResultBuilder) (c : StepsContext)
        → Gives IsReport (finish_sequence host run_step l b c)
    unfolding finish_sequence build_result
    finish_sequence-IsReport b c s s' ran h = ground arith

    Ends-IsReport :
        (b : StepResultBuilder) (e : Option Error) (c : StepsContext) (s s' : State W)
        (ran : Outcome × StepsContext)
        → Ends host run_step l b e (c, s) (ran, s')
        → IsReport ran
    Ends-IsReport b none c s s' ran h = finish_sequence-IsReport b c s s' ran h
    Ends-IsReport b (some e) c s s' ran h = rw (← ap (λ p. p.0) h) (failed-IsReport l b e c)

    run_steps-IsReport :
        (steps : List LazyStep) (b : StepResultBuilder) (c : StepsContext)
        → Gives IsReport (run_steps host run_step l steps b c)
    run_steps-IsReport steps b c s s' ran h =
        let r = run_steps-IsRun host run_step l steps b c s (ran, s') h in
        Ends-IsReport _ r.error r.last.0 r.last.1 s' ran r.ends

    run_sequence-IsReport :
        (steps : List LazyStep) (c : StepsContext)
        → Gives IsReport (run_sequence host run_step l steps c)
    unfolding run_sequence run_steps_in
    run_sequence-IsReport steps c =
        Gives-attempt IsReport (expand_and_apply_env host c (env_of l.spec_def))
          (λ e. pure (failed l new_builder (wrap_error "expand step env: %w" [] e), c))
          (run_steps_in host run_step l steps)
          (λ e.
            Gives-pure IsReport (failed l new_builder (wrap_error "expand step env: %w" [] e), c)
              (failed-IsReport l new_builder (wrap_error "expand step env: %w" [] e) c))
          λ c'.
            Gives-and_then IsReport (env_values c'.env)
              (λ env. run_steps host run_step l steps (record new_builder { env = env }) c')
              λ env. run_steps-IsReport steps (record new_builder { env = env }) c'

-- A run that returns reports what happened: without an error its result says success, and with an
-- error the result, if there is one, says failure. No run returns neither a result nor an error.
pub run-IsReport :
    {W : Type 0} (host : Host W) (fuel : ℕ) (p : Parsed) (c : StepsContext) (s s' : State W)
    (ran : Outcome × StepsContext)
    → run host fuel p c s ≡ some (ran, s')
    → IsReport ran
unfolding run
run-IsReport host zero p c s s' ran h = cc
run-IsReport host (suc fuel) (executable l) c s s' ran h =
    run_executable-IsReport host l c s s' ran h
run-IsReport host (suc fuel) (sequence l steps) c s s' ran h =
    run_sequence-IsReport host l (run_lazy host fuel (run host fuel)) steps c s s' ran h
