-- ===== src/Resolver.antt =====
-- rust/crates/leanbun-resolver/src/model.rs
pub mod Model
pub mod Fields
pub mod Relative
pub mod Stops
pub mod Selecting
pub mod Identity
pub mod Cycles
pub mod Impact
pub mod Resolve
