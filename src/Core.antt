-- ===== src/Core.antt =====
-- crates/core/src: the protocol-independent domain types.
pub mod Schema
pub mod Change
pub mod Lsn
pub mod Pipeline
pub mod Mapping
