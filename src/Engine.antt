-- ===== src/Engine.antt =====
-- crates/engine/src: batching, normalisation, the replication loop, its two ends, telemetry and the
-- supervisor of tasks.
pub mod Batch
pub mod Normalize
pub mod Pipeline
pub mod Ingest
pub mod PgOutput
pub mod Cloudberry
pub mod Telemetry
pub mod Supervisor
