-- ===== src/Logs.antt =====
-- pkg/api/internal/streamer/file/file.go: the log of a job, which is followed while it grows.
pub mod Streamer
pub mod Follow
pub mod Lines
pub mod Chunks
pub mod Streaming
