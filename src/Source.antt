-- ===== src/Source.antt =====
-- crates/source-postgres/src: the PostgreSQL side.
pub mod Wal
pub mod Ddl
pub mod Protocol
