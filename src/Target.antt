-- ===== src/Target.antt =====
-- crates/target-cloudberry/src: the Cloudberry side.
pub mod Checkpoint
pub mod Copy
pub mod Apply
