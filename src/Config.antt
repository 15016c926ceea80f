-- ===== src/Config.antt =====
-- internal/config: the configuration of Edge and Agent.
pub mod File
pub mod Addr
pub mod Validate
pub mod Naming
pub mod Defaults
pub mod Find
pub mod Load
pub mod Mapping
mod Tests
