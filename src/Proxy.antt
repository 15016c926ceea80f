-- ===== src/Proxy.antt =====
-- internal/proxy: what the Edge reads of a visitor's first bytes, and gives back.
pub mod Host
pub mod Local
pub mod Hello
pub mod Prefix
mod Tests
