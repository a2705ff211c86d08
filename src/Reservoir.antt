-- ===== src/Reservoir.antt =====
-- rust/crates/leanbun-lock/src/reservoir_binding_v1.rs (one binding) and
-- rust/crates/leanbun-resolver/src/reservoir_policy_v1.rs
pub mod Binding
pub mod Document
pub mod Policy
pub mod Authorized
pub mod Drift
