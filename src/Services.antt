-- ===== src/Services.antt =====
-- crates/hypercarry-mainnet-services and the runtime configuration of crates/hypercarry-mainnet-config.
-- An error of `anyhow` keeps no message here.
pub mod Policy
pub mod Signing
pub mod Watchdog
