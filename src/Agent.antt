-- ===== src/Agent.antt =====
-- internal/agent: the side that dials out, and relays to local targets.
pub mod Client
pub mod Udp
mod Tests
