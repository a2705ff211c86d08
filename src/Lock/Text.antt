-- ===== src/Lock/Text.antt =====
-- The canonical text of rust/crates/leanbun-lock/src/lock_v1.rs.
pub mod Encode
pub mod Parse
pub mod Reads
pub mod Records
pub mod RoundTrip
pub mod Whole
pub mod Canonical
