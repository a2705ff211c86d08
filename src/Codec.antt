-- ===== src/Codec.antt =====
-- rust/crates/leanbun-codec
pub mod Json
pub mod Text
pub mod Parser
pub mod Ensures
pub mod Lexical
pub mod Shape
pub mod Limits
