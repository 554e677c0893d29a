-- ===== src/Clients.antt =====
-- pkg/api/client: the clients of the service.
pub mod Basic
pub mod Extended
pub mod Followed
pub mod Calls
pub mod Served
