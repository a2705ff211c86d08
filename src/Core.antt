-- ===== src/Core.antt =====
-- rust/crates/leanbun-core
pub mod Sha256
pub mod Identity
pub mod Framing
