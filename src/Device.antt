-- ===== src/Device.antt =====
-- apis/network/v1alpha1/device.go: the configuration of one device, built up by `GetOrCreate…`
-- and `AddOrUpdate…` calls. The children hold the operations by collection.
--
-- A method `GetOrCreateX(key)` returns a pointer into the device, through which its caller then
-- writes. Here it is a function that takes the write as an argument: `get_or_create_x key write
-- parent` is the parent after the call and the write. A chain of calls is a nest of writes.
pub mod Elements
pub mod Root
pub mod Interfaces
pub mod Igp
pub mod Bgp
pub mod Valid
pub mod Safe
pub mod Writes
