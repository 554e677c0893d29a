-- ===== src/Runner/Run/Returns.antt =====
-- executable_step.go: a step that runs a command ends.
use step_runner.Common.{
  ℕ, suc, String, ◌≡◌, refl, ◌<◌, true, Option, none, some, is_some, Option-cases, [], ◌∷◌, Map,
  length, length-append, wrap_error, Result-cases, arith, inl, inr,
}
use step_runner.Environment.{Heap, values, new_environment, add_lexical_scope, mutate}
use step_runner.Environment.Reachable.{Reachable, new, scope, Reachable-values-total}
use step_runner.Runner.Host.{State, M, Host}
use step_runner.Runner.Model.{Loaded, env_of, executable}
use step_runner.Runner.StepFile.{read_environment}
use step_runner.Runner.Context.{StepsContext, expand_texts, expand_and_apply_env, view_of}
use step_runner.Expression.Dig.{context}
use step_runner.Runner.Run.Builder.{StepResultBuilder, Outcome}
use step_runner.Runner.Run.Executable.{
  start_command, Executed, exec_step_command, read_outputs, finish_executable, after_command,
  run_command_in, run_expanded, run_executable,
}
use step_runner.Runner.Run.Reports.{IsReport, run-IsReport}
use step_runner.Runner.Run.{run}

-- The environments that a step works on are there, on a heap that the program built.
pub record IsLive {W : Type 0} (c : StepsContext) (s : State W) : Type 0 where
  pub built : Reachable s.heap
  pub own : c.env < length s.heap
  pub shared : c.global_ctx.env < length s.heap

abbrev Returns : {W A : Type 0} → M W A → State W → Type 0
Returns m s = is_some (m s) ≡ true

new_environment-lt :
    (vars : Map String) (h : Heap) → (new_environment vars h).0 < length (new_environment vars h).1
unfolding new_environment
new_environment-lt vars h =
    omega (arith, length-append h (record { vars = vars; parent = none; mutations = [] } ∷ []))

-- What new variables are read as, and that they can be exported.
new_environment-values :
    (vars : Map String) (h : Heap)
    → Reachable h
    → (m : Map String) × (values (new_environment vars h).1 (new_environment vars h).0 ≡ some m)
new_environment-values vars h r =
    Reachable-values-total (new_environment vars h).0 (new vars r) (new_environment-lt vars h)

is_some-value : {A : Type 0} (o : Option A) → is_some o ≡ true → (a : A) × (o ≡ some a)
is_some-value none h = cc
is_some-value (some a) h = (a, refl)

mutate-returns :
    (e : ℕ) (vars : Map String) (h : Heap)
    → Reachable h
    → is_some (mutate e (some (new_environment vars h).0) (new_environment vars h).1) ≡ true
unfolding mutate
mutate-returns e vars h r = let (m, read) = new_environment-values vars h r in rw read refl

module _ {W : Type 0} (host : Host W) (l : Loaded) where
  finish_executable-Returns :
      (b : StepResultBuilder) (c : StepsContext) (s : State W)
      → IsLive c s
      → Returns (finish_executable host l b c) s
  unfolding finish_executable
  finish_executable-Returns b c s live = elim (Result-cases (read_outputs host c l s.world)) [
    | inr (e, f) ↦ ground arith
    | inl (outputs, f) ↦ elim (Result-cases (read_environment host c.export_file s.world)) [
      | inr (e, g) ↦ ground arith
      | inl (vars, g) ↦
          let (m, read) = new_environment-values vars s.heap live.built in
          let (h', done) =
            is_some-value _ (mutate-returns c.global_ctx.env vars s.heap live.built) in
          ground arith
    ]
  ]

  after_command-Returns :
      (c : StepsContext) (env : Map String) (executed : Executed) (s : State W)
      → IsLive c s
      → Returns (after_command host l c env executed) s
  unfolding after_command
  after_command-Returns c env executed s live = elim (Option-cases executed.error) [
    | inr (e, raised) ↦ rw raised refl
    | inl fine ↦ rw fine (finish_executable-Returns _ c s live)
  ]

  exec_step_command-Returns :
      (c : StepsContext) (s : State W) → IsLive c s → Returns (exec_step_command host c l) s
  unfolding exec_step_command start_command
  exec_step_command-Returns c s live =
      let (m, read) = Reachable-values-total c.env live.built live.own in ground arith

  exec_step_command-heap :
      (c : StepsContext) (s s' : State W) (executed : Executed)
      → exec_step_command host c l s ≡ some (executed, s')
      → s'.heap ≡ s.heap
  unfolding exec_step_command start_command
  exec_step_command-heap c s s' executed h = ground arith

  run_command_in-Returns :
      (c : StepsContext) (s : State W) → IsLive c s → Returns (run_command_in host l c) s
  unfolding run_command_in
  run_command_in-Returns c s live =
      let (env, read) = Reachable-values-total c.env live.built live.own in
      let ((executed, s'), done) =
        is_some-value (exec_step_command host c l s) (exec_step_command-Returns c s live) in
      let kept = exec_step_command-heap c s s' executed done in
      let live' : IsLive c s' = record {
        built = rw kept live.built;
        own = rw kept live.own;
        shared = rw kept live.shared;
      } in
      let finished = after_command-Returns c env executed s' live' in ground arith

  -- The scope of the step's own variables is an environment on the heap that it makes.
  add_scope-IsLive :
      (c : StepsContext) (vars : Map String) (s : State W)
      → IsLive c s
      → IsLive
          (record c { env = (add_lexical_scope c.env vars s.heap).0 })
          (record s { heap = (add_lexical_scope c.env vars s.heap).1 })
  unfolding add_lexical_scope
  add_scope-IsLive c [] s live = record { built = live.built; own = live.own; shared = live.shared }
  add_scope-IsLive c (v ∷ vars) s live = record {
    built = scope c.env (v ∷ vars) live.own live.built;
    own = omega (
      arith,
      length-append s.heap (record { vars = v ∷ vars; parent = some c.env; mutations = [] } ∷ []),
    );
    shared =
        let before = live.shared in
        omega (
          arith,
          length-append s.heap
              (record { vars = v ∷ vars; parent = some c.env; mutations = [] } ∷ []),
        );
  }

  run_expanded-Returns :
      (c : StepsContext) (s : State W) → IsLive c s → Returns (run_expanded host l c) s
  unfolding run_expanded expand_and_apply_env
  run_expanded-Returns c s live =
      let (m, read) = Reachable-values-total c.env live.built live.own in
      elim (Result-cases (
        expand_texts host.codec (context (view_of c m))
          (λ key. wrap_error "env variable %q: %w" (key ∷ [])) (env_of l.spec_def))) [
            | inr (e, f) ↦ ground arith
            | inl (expanded, f) ↦
                let rest = run_command_in-Returns _ _ (add_scope-IsLive c expanded s live) in
                ground arith
          ]

  run_executable-Returns :
      (c : StepsContext) (s : State W) → IsLive c s → Returns (run_executable host l c) s
  unfolding run_executable
  run_executable-Returns c s live =
      let live' : (w : W) → IsLive c (record s { world = w }) =
        λ w. record { built = live.built; own = live.own; shared = live.shared } in
      elim (Result-cases (host.write_log "Running step %q" (l.loaded_from.name ∷ []) s.world).0) [
        | inr (e, f) ↦ rw f refl
        | inl (u, f) ↦ rw f (run_expanded-Returns c _ (live' _))
      ]

-- A step that runs a command ends when its environments are on a heap that the program built and the
-- command ends, and its outcome reports what happened: a success without an error, or an error, which
-- may be a panic, with no result or with a result that says failure.
pub run-returns :
    {W : Type 0} (host : Host W) (fuel : ℕ) (l : Loaded) (c : StepsContext) (s : State W)
    → IsLive c s
    → (ran : Outcome × StepsContext) × (s' : State W) × (run host (suc fuel) (executable l) c s
        ≡ some (ran, s'))
      × IsReport ran
unfolding run
run-returns host fuel l c s live =
    let ((ran, s'), done) =
      is_some-value (run_executable host l c s) (run_executable-Returns host l c s live) in
    (ran, s', done, run-IsReport host (suc fuel) (executable l) c s s' ran done)
