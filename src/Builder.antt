-- ===== src/Builder.antt =====
-- pkg/devbuilder/builder.go and api.go: the underlay, from links and nodes to calls on the devices.
pub mod State
pub mod Node
pub mod Interfaces
pub mod Gather
pub mod Underlay
pub mod Leads
pub mod Leading
pub mod Building
pub mod Result
pub mod Sessions
pub mod Overlay
pub mod Outcomes
pub mod Claims
