-- ===== src/Tests.antt =====
-- Runs of the model at concrete inputs, and the theorems applied at them.
mod Devices
mod Design
mod Link
mod Builder
mod Claims
pub mod Lease
pub mod Reconcile
mod Progress
mod Claiming
mod Watching
mod Clab
mod Pools
