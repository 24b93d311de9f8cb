-- ===== src/Design.antt =====
-- apis/network/v1alpha1/networkdesign_types.go and networkdesign_interfaces.go: the design of a
-- network and what the program reads from it.
pub mod Spec
pub mod Getters
pub mod Families
pub mod Laws
pub mod Enabled
pub mod Claims
pub mod Pools
pub mod Selects
