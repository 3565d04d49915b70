-- ===== src/Samples.antt =====
-- Concrete values, and the theorems applied to them.
pub mod Values
pub mod World
pub mod Members
mod Merging
mod Storing
mod Reconciling
mod Ensuring
mod Connecting
pub mod Cluster
mod Deploying
mod Starting
mod Working
