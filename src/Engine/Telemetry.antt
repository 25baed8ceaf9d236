-- ===== src/Engine/Telemetry.antt =====
-- crates/engine/src/telemetry.rs: what is reported of a pipeline at run time. The clock's reading is an
-- argument. An update returns whether it panicked, and the snapshot that it leaves.
pub mod Positions
use etl_server_cloudberry.Prelude.{
  ℕ, ℤ, ◌-◌, Bool, true, false, not, ◌&&◌, ◌||◌, Option, none, some, List, [], ◌∷◌, ◌++◌, Text,
  text, length, ltb, leb, is_none, if◌then◌else◌, saturating_add,
}
use etl_server_cloudberry.Core.Change.{PgLsn}
use etl_server_cloudberry.Core.Mapping.{take, is_char_boundary}
use etl_server_cloudberry.Core.Pipeline.{
  PipelinePhase, draft, validating, snapshotting, catching_up, paused,
}
use etl_server_cloudberry.Core.Pipeline

pub data PipelineRuntimeState : Type 0 where
  starting running stopped failed degraded : PipelineRuntimeState

unfoldable pub as_str : PipelineRuntimeState → Text
as_str starting = text "starting"
as_str running = text "running"
as_str stopped = text "stopped"
as_str failed = text "failed"
as_str degraded = text "degraded"

-- Times are in microseconds of the Unix epoch.
pub record PipelineRuntimeSnapshot : Type 0 where
  pub pipeline_id : ℕ
  pub phase : PipelinePhase
  pub state : PipelineRuntimeState
  pub source_received_lsn : Option PgLsn
  pub source_current_lsn : Option PgLsn
  pub target_checkpoint_lsn : Option PgLsn
  pub estimated_byte_lag : Option ℕ
  pub slot_retained_wal_bytes : Option ℕ
  pub slot_safe_wal_bytes : Option ℕ
  pub wal_retention_warning : Bool
  pub last_transaction_at : Option ℤ
  pub last_apply_at : Option ℤ
  pub last_ack_at : Option ℤ
  pub started_at : Option ℤ
  pub stopped_at : Option ℤ
  pub restart_count : ℕ
  pub last_error : Option Text

unfoldable pub phase_name : PipelineRuntimeSnapshot → Text
phase_name s = elim s.phase [
  | draft ↦ text "draft"
  | validating ↦ text "validating"
  | snapshotting ↦ text "snapshotting"
  | catching_up ↦ text "catching_up"
  | Pipeline.running ↦ text "running"
  | paused ↦ text "paused"
  | Pipeline.degraded ↦ text "degraded"
  | Pipeline.failed ↦ text "failed"
  | Pipeline.stopped ↦ text "stopped"
]

-- `PipelineTelemetryHandle::new`.
unfoldable pub new_snapshot : ℕ → PipelineRuntimeSnapshot
new_snapshot pipeline_id = record {
  pipeline_id = pipeline_id;
  phase = draft;
  state = stopped;
  source_received_lsn = none;
  source_current_lsn = none;
  target_checkpoint_lsn = none;
  estimated_byte_lag = none;
  slot_retained_wal_bytes = none;
  slot_safe_wal_bytes = none;
  wal_retention_warning = false;
  last_transaction_at = none;
  last_apply_at = none;
  last_ack_at = none;
  started_at = none;
  stopped_at = none;
  restart_count = 0;
  last_error = none;
}

-- `received.saturating_sub(applied)`.
unfoldable pub byte_lag : Option PgLsn → Option PgLsn → Option ℕ
byte_lag (some received) (some applied) = some (received - applied)
byte_lag _ _ = none

-- The end of `with_mut`.
unfoldable pub with_lag : PipelineRuntimeSnapshot → PipelineRuntimeSnapshot
with_lag s = record s {
  estimated_byte_lag = byte_lag s.source_received_lsn s.target_checkpoint_lsn;
}

-- A position is replaced by one that is beyond it.
unfoldable pub advance : Option PgLsn → PgLsn → Option PgLsn
advance none lsn = some lsn
advance (some previous) lsn = if ltb previous lsn then some lsn else some previous

unfoldable pub is_broken : PipelinePhase → Bool
is_broken Pipeline.degraded = true
is_broken Pipeline.failed = true
is_broken _ = false

unfoldable pub mark_started : PipelineRuntimeSnapshot → ℤ → PipelineRuntimeSnapshot
mark_started s now = with_lag (record s {
  restart_count =
      if is_none s.started_at then s.restart_count else saturating_add s.restart_count 1;
  started_at = some now;
  stopped_at = none;
  state = starting;
})

unfoldable pub mark_running : PipelineRuntimeSnapshot → PipelineRuntimeSnapshot
mark_running s = with_lag (record s { state = running })

unfoldable pub mark_stopped : PipelineRuntimeSnapshot → ℤ → PipelineRuntimeSnapshot
mark_stopped s now =
    with_lag (record s { state = stopped; phase = Pipeline.stopped; stopped_at = some now })

-- `String::truncate` panics (`none`) inside a character.
unfoldable pub trim_error : Text → Option Text
trim_error error =
    if ltb 1_024 (length error)
    then if is_char_boundary error 1_024 then some (take 1_024 error ++ text "...") else none
    else some error

-- An update that ends by storing an error text; a panic leaves what was stored before.
unfoldable pub store_error : PipelineRuntimeSnapshot → Option Text → Bool × PipelineRuntimeSnapshot
store_error s none = (true, s)
store_error s (some error) = (false, with_lag (record s { last_error = some error }))

unfoldable pub mark_failed : PipelineRuntimeSnapshot → ℤ → Text → Bool × PipelineRuntimeSnapshot
mark_failed s now error =
    store_error (record s { state = failed; phase = Pipeline.failed; stopped_at = some now })
      (trim_error error)

unfoldable pub mark_degraded : PipelineRuntimeSnapshot → Text → Bool × PipelineRuntimeSnapshot
mark_degraded s error =
    store_error (record s { state = degraded; phase = Pipeline.degraded }) (trim_error error)

unfoldable pub set_phase : PipelineRuntimeSnapshot → PipelinePhase → PipelineRuntimeSnapshot
set_phase s phase = with_lag (record s { phase = phase })

unfoldable pub received_phase : PipelinePhase → Option PgLsn → PgLsn → PipelinePhase
received_phase phase none lsn = phase
received_phase phase (some applied) lsn = if ltb applied lsn then catching_up else Pipeline.running

unfoldable pub source_received : PipelineRuntimeSnapshot → PgLsn → PipelineRuntimeSnapshot
source_received s lsn = with_lag (record s {
  source_received_lsn = advance s.source_received_lsn lsn;
  phase = if is_broken s.phase then s.phase else received_phase s.phase s.target_checkpoint_lsn lsn;
})

unfoldable pub transaction_received : PipelineRuntimeSnapshot → PgLsn → ℤ → PipelineRuntimeSnapshot
transaction_received s lsn commit_time = with_lag (record s {
  source_current_lsn = advance s.source_current_lsn lsn;
  source_received_lsn = advance s.source_received_lsn lsn;
  last_transaction_at = some commit_time;
})

unfoldable pub checkpoint_initialized : PipelineRuntimeSnapshot → PgLsn → PipelineRuntimeSnapshot
checkpoint_initialized s lsn =
    with_lag (record s { target_checkpoint_lsn = advance s.target_checkpoint_lsn lsn })

unfoldable pub has_caught_up : Option PgLsn → PgLsn → Bool
has_caught_up none lsn = true
has_caught_up (some received) lsn = leb received lsn

unfoldable pub applied : PipelineRuntimeSnapshot → ℤ → PgLsn → PipelineRuntimeSnapshot
applied s now lsn = with_lag (record s {
  target_checkpoint_lsn = advance s.target_checkpoint_lsn lsn;
  last_apply_at = some now;
  phase =
      if not (is_broken s.phase) && has_caught_up s.source_received_lsn lsn
      then Pipeline.running
      else s.phase;
})

unfoldable pub acknowledged : PipelineRuntimeSnapshot → ℤ → PgLsn → PipelineRuntimeSnapshot
acknowledged s now lsn = with_lag (record s {
  target_checkpoint_lsn = advance s.target_checkpoint_lsn lsn;
  last_ack_at = some now;
})

unfoldable pub wal_retention_observed :
    PipelineRuntimeSnapshot → Option ℕ → Option ℕ → Bool → PipelineRuntimeSnapshot
wal_retention_observed s retained_bytes safe_bytes warning = with_lag (record s {
  slot_retained_wal_bytes = retained_bytes;
  slot_safe_wal_bytes = safe_bytes;
  wal_retention_warning = warning;
})

unfoldable pub report_error : PipelineRuntimeSnapshot → Text → Bool × PipelineRuntimeSnapshot
report_error s error = store_error s (trim_error error)
