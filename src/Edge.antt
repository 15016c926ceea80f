-- ===== src/Edge.antt =====
-- internal/edge: the public side, which lets visitors and the Agent in.
pub mod Gate
pub mod Trust
pub mod Protection
pub mod Routes
pub mod Visits
pub mod Admission
pub mod Certs
pub mod Sessions
pub mod Evictions
pub mod Hub
mod RouteTests
mod Tests
