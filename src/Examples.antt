-- ===== src/Examples.antt =====
-- Runs on concrete inputs, and the theorems at inputs that meet their hypotheses.
pub mod Orders
pub mod Identities
pub mod Machines
pub mod Throttles
pub mod Policies
pub mod Tallies
pub mod Journals
pub mod Simulations
pub mod DryRuns
pub mod Releases
pub mod Carries
pub mod Watchdogs
pub mod Predictions
pub mod Datasets
