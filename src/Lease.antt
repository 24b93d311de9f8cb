-- ===== src/Lease.antt =====
-- The lease that a reconciler acquires before it writes (pkg/reconcilers/lease/lease.go).
pub mod Protocol
pub mod Exclusion
