-- ===== src/Service.antt =====
-- pkg/api/service: the gRPC service that runs jobs, with its map of jobs and the variables of a job.
pub mod SyncMap
pub mod Variables
pub mod Files
pub mod Handlers
pub mod Following
pub mod Outcomes
pub mod Reachable
pub mod Invariant
pub mod Answers
