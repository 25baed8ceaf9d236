-- ===== src/Examples.antt =====
-- Tests and instances of the theorems at concrete inputs.
mod Data
mod Engine
mod Source
mod Target
mod Metadata
mod Normalize
mod Decoder
mod PgOutput
mod Mapping
mod Apply
mod Cloudberry
mod Telemetry
mod Supervisor
