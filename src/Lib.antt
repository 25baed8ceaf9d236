-- ===== src/Lib.antt =====
-- Verification of the replication core of etl_server_cloudberry, which streams committed changes of
-- PostgreSQL or Citus sources into Cloudberry.
--
-- The program. One pipeline reads a logical replication stream per source node. The assembler of
-- crates/source-postgres/src/wal.rs turns decoded messages into committed transactions; the batcher
-- of crates/engine/src/batch.rs groups them; the loop of crates/engine/src/pipeline.rs delivers a
-- batch to the target and then acknowledges its last position to the source; the normaliser of
-- crates/engine/src/normalize.rs folds a batch into one staging row per row of a table; and
-- crates/target-cloudberry/src/checkpoint.rs records the position in the target, under a fence that
-- keeps former owners of the pipeline out. The owner is the holder of a lease of
-- crates/metadata/src/store.rs, whose token is the fence's. The tasks that run pipelines are
-- started and stopped by crates/engine/src/supervisor.rs.
--
-- The files.
--   Prelude and below: shared notation, Boolean tests, lists, results, machine words, signed
--     numbers, texts as bytes, a stable sort, association maps.
--   Core/Schema: crates/core/src/schema.rs and error.rs (identifiers, types, table schemas,
--     `validate_supported`), with the contract that it decides (Contract). Core/Change:
--     crates/core/src/change.rs. Core/Lsn: crates/core/src/lsn.rs, with the round trip
--     (RoundTrip). Core/Pipeline: the phases.
--     Core/Mapping: crates/core/src/mapping.rs, with shortened identifiers (Shorten) and the names
--     of targets (Names).
--   Source/Protocol: the protocol messages as the decoder sees them. Source/Ddl: the DDL messages of
--     crates/source-postgres/src/ddl.rs. Source/Wal/Decoder: `TransactionDecoder`, with the
--     generations of relations (Generations), the events by their messages (Changes, Events), and the
--     decoder in front of the assembler (Links, Feeds).
--   Source/Wal: the messages of wal.rs; Source/Wal/Assembler: `TransactionAssembler`, with the
--     branches of its operations (Branches), its bounds (Bounds), what it emits (Emits), what
--     an event adds to a transaction (Added), and the content of a transaction (Content).
--   Engine/Batch: `Batcher` and `TransactionBatch`, with runs of transactions (Order), the
--     invariant (Bounds) and what the operations promise (Contract).
--   Engine/Pipeline: `PipelineMachine` and `replicate_with_telemetry`, with the diagram of the phases
--     (Machine), one delivery (Delivery), the whole loop (Stream) and its end (Drain).
--   Engine/Ingest: the assembler in front of the batcher.
--   Engine/PgOutput: crates/engine/src/adapters/pgoutput.rs, with what it reports (Reports), what it
--     keeps (Kept) and what can be acknowledged (Delivered).
--   Engine/Cloudberry: crates/engine/src/adapters/cloudberry.rs, with the groups of row changes (Groups,
--     Grouping), the table bindings (Registry), the barriers (Quiet), the tables of a request (Staged)
--     and the whole delivery of a batch (Delivery).
--   Engine/Normalize: keys (Key), the steps of a row change (Lineages), the staging rows (Finish),
--     and the agreement of its key maps with its lineages: maps as inverses (Inverse), the invariant
--     (Indexed), parts of a step (Steps), whole steps and runs (Runs).
--   Engine/Telemetry: crates/engine/src/telemetry.rs, with the reported positions (Positions).
--   Engine/Supervisor: crates/engine/src/supervisor.rs, one call after the other, with what a step
--     leaves as it was (Steps) and which tasks the supervisor holds (Owned).
--   Target/Checkpoint: fences and checkpoints, with the fence (Fence), one advance (Advance) and
--     sequences of requests by any number of owners (History).
--   Target/Copy: crates/target-cloudberry/src/copy.rs, with a reader of the format (RoundTrip).
--     Target/Apply: crates/target-cloudberry/src/apply.rs, `execute_apply` and the staging rows, with
--     what is read for a row (Rows), the statements executed (Statements) and sequences of
--     transactions (Executed).
--   Metadata/Lease: the leases, with one acquisition (Tokens), sequences of requests (History),
--     what follows for a replaced owner (Ownership), and the requests of others (Exclusive).
--   Examples: instances at concrete inputs.
--
-- How code becomes definitions. A method that changes its object returns its result and the object
-- that it leaves. An early return is a branch; an error carries what identifies it, and its text is
-- left out where no code reads it. `panic` and `panicked` stand for a failed `expect` or an index
-- out of range. `usize` and `u64` are numbers with saturation and wrap-around written out where the
-- code adds; a sum of byte lengths wraps as in a release build. Texts are their UTF-8 bytes. Hash
-- maps are association lists. Time is in microseconds, as are the durations of leases; the batcher's
-- delay is in nanoseconds.
--
-- The loop. `select!` and everything it awaits is a sequence of turns: which branch is taken and how
-- the delivery in it ends. A commit in the target that is under way when cancellation wins or when
-- its response is lost has either happened (the log has the batch) or not; the turns have both. No
-- order between the branches is assumed, so the `biased` order is one of the sequences.
--
-- The target. The two tables of checkpoint.rs are maps by their primary keys in decoded form. A
-- statement is a function on them, a request that returns an error has rolled back, and requests
-- take effect one after the other, as the row locks of the fence make them. The leases are modelled
-- in the same way, with the two readings of the clock of a statement as arguments.
--
-- Parameters. What is not in the repository is an argument of the definitions that use it: the
-- protocol crate's messages (as what their accessors return), the JSON parser of a DDL envelope,
-- chrono's range of timestamps, SHA-256 (of which only the length of a digest is assumed), and the
-- database that executes the statements of an apply plan.
--
-- Recursion of the code is structural throughout, without fuel. The reader of COPY rows in
-- Target/Copy/RoundTrip, which is a specification, has the length of the row as its fuel.
--
-- Not modelled: the transport of pgoutput, catalog queries, snapshots, the event triggers that capture
-- DDL, the text of the SQL statements that an apply plan holds, the reconciler,
-- configuration, the HTTP interface and the web client, which are input and output or stand around
-- the replication core.
pub mod Prelude
pub mod Core
pub mod Source
pub mod Target
pub mod Engine
pub mod Metadata
pub mod Examples
