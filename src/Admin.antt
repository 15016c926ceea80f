-- ===== src/Admin.antt =====
-- internal/admin: the management API.
pub mod Auth
pub mod Handlers
pub mod Listing
mod Tests
