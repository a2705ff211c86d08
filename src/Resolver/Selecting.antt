-- ===== src/Resolver/Selecting.antt =====
-- `resolve_lean_dependencies_v1` of rust/crates/leanbun-resolver/src/model.rs, up to the selection of
-- one candidate for each reachable key. Byte strings compare by `==`, keys by their derived order.
mod Defs
pub mod Step
pub mod Closure
pub mod Fuel
pub mod Ending
unfoldable pub use Defs.*
