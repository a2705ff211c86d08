-- ===== src/Lock.antt =====
-- rust/crates/leanbun-lock/src/lock_v1.rs
pub mod Model
pub mod Fields
pub mod Urls
pub mod Hash
pub mod Hex
pub mod Text
pub mod Package
pub mod Graph
pub mod Build
pub mod Provenance
pub mod Decisions
