-- ===== src/State.antt =====
-- rust/crates/leanbun-state/src/lib.rs
pub mod BuildLock
pub mod Exclusion
