-- ===== src/Devices.antt =====
-- pkg/devbuilder/devices.go: the devices of a network by node name. Each method takes the lock,
-- makes the device of the node if there is none, and writes to it; so a method is one step here.
-- A method that the program calls with a pointer to a new struct takes that struct.
pub mod Store
pub mod Ops
pub mod Protocols
pub mod Calls
pub mod Valid
pub mod Form
pub mod Local
pub mod Reads
pub mod Neighbors
