-- ===== src/Keyed.antt =====
-- The pattern that apis/network/v1alpha1/device.go repeats for every collection of a device: a
-- slice of pointers that is searched by an identity, and where a miss appends a new element and
-- sorts the slice stably. A Go pointer into the slice is the element with that identity, so
-- `GetOrCreate…(key)` followed by writes through the pointer is `update key write`.
mod Defs
pub mod Sort
pub mod Find
pub mod Canonical
pub use Defs.{KeyOrder, Element}
unfoldable pub use Defs.{insert_stable, stable_sort, find, present, create, modify, update, at}
