-- ===== src/Metadata.antt =====
-- crates/metadata: the leases of the control plane.
pub mod Lease
