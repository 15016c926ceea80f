-- ===== src/Ban.antt =====
-- internal/ban: strikes and bans of IP addresses.
pub mod Store
pub mod Methods
pub mod Streaks
pub mod Escalation
pub mod Steps
pub mod Invariant
pub mod Histories
pub mod Reports
pub mod Reload
pub mod Unbans
mod Tests
