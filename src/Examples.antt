-- ===== src/Examples.antt =====
-- Runs of the theorems at concrete inputs, and the data that they share.
pub mod Data
pub mod Environments
pub mod Expressions
pub mod StepFiles
pub mod Runs
pub mod JobStates
mod Promotion
mod Requests
mod Following
mod Images
mod Fetching
pub mod Commands
pub mod Clients
