-- ===== src/Acl.antt =====
-- internal/acl: the allowlist of visitors' addresses, its store and its file.
pub mod Parsing
pub mod Store
pub mod Files
pub mod Validity
pub mod Keys
pub mod Atomicity
mod Tests
