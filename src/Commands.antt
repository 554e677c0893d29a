-- ===== src/Commands.antt =====
-- The commands run and ci, with what they share: the report, and the container that makes the parser.
pub mod Report
pub mod Container
pub mod Flags
pub mod Run
pub mod Ci
pub mod Reported
pub mod Isolated
pub mod Separated
