-- ===== src/Lake.antt =====
-- rust/crates/leanbun-lake-bridge/src/model.rs
pub mod Model
pub mod Declaration
pub mod Probe
pub mod Observed
pub mod Projection
