-- ===== src/Runner.antt =====
-- pkg/runner: loading steps, running them, and collecting their results.
pub mod Host
pub mod Model
pub mod Resource
pub mod StepFile
pub mod Context
pub mod Parser
pub mod Run
pub mod GlobalEnv
