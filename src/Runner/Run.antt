-- ===== src/Runner/Run.antt =====
-- executable_step.go, sequence_of_steps.go, lazily_loaded_step.go and step_result_builder.go.
pub mod Builder
pub mod Executable
pub mod Sequence
pub mod Lazy
pub mod Trace
pub mod Reports
pub mod Returns
use step_runner.Common.{ℕ, zero, suc, none}
use step_runner.Runner.Host.{State, M, Host}
use step_runner.Runner.Model.{Parsed, executable, sequence}
use step_runner.Runner.Context.{StepsContext}
use step_runner.Runner.Run.Builder.{Outcome}
use step_runner.Runner.Run.Executable.{run_executable}
use step_runner.Runner.Run.Sequence.{run_sequence}
use step_runner.Runner.Run.Lazy.{run_lazy}

-- Step.Run of a parsed step. The fuel bounds how deep steps run steps: a step may load itself.
unfoldable pub run :
    {W : Type 0} → Host W → ℕ → Parsed → StepsContext → M W (Outcome × StepsContext)
run host zero p c = λ s. none
run host (suc fuel) (executable l) c = run_executable host l c
run host (suc fuel) (sequence l steps) c =
    run_sequence host (run_lazy host fuel (run host fuel)) l steps c
