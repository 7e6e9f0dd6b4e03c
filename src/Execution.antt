-- ===== src/Execution.antt =====
-- The crate crates/hypercarry-execution.
pub mod Error
pub mod Model
pub mod Identity
pub mod Lifecycle
pub mod Reliability
pub mod Risk
pub mod Journal
pub mod Simulator
pub mod DryRun
pub mod Mainnet
