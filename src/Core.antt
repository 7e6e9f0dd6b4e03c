-- ===== src/Core.antt =====
-- The crate crates/hypercarry-core.
pub mod Carry
pub mod Predictor
