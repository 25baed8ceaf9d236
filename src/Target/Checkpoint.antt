-- ===== src/Target/Checkpoint.antt =====
-- crates/target-cloudberry/src/checkpoint.rs: the pipeline fence and the node checkpoints in the
-- target. The two tables are association lists by their primary keys, in decoded form; each SQL
-- statement of the file is a function on them, and a function that returns an error has rolled back.
pub mod Fence
pub mod Advance
pub mod History
use etl_server_cloudberry.Prelude.{
  ℕ, ℤ, pos, ◌^◌, Bool, true, false, not, ◌&&◌, ◌||◌, Option, none, some, Text, Bytes-discrete,
  contains_nul, is_empty, leb, ltb, ltb_ℤ, ◌==◌, if◌then◌else◌, is_yes, ℕ_discrete, ℤ_discrete,
  Result, ok, err, ◌>>=◌, ◌>>◌,
}
use etl_server_cloudberry.Prelude.Assoc.{Assoc, get, insert}
use etl_server_cloudberry.Core.Change.{PgLsn}

-- A pipeline id is the number of its UUID.
pub record PipelineFence : Type 0 where
  pub pipeline_id : ℕ
  pub topology_generation : ℕ
  pub fencing_token : ℤ

pub record CheckpointKey : Type 0 where
  pub pipeline_id : ℕ
  pub topology_generation : ℕ
  pub node_id : ℤ

unfoldable pub CheckpointKey-discrete : Discrete CheckpointKey
CheckpointKey-discrete = hlevel ℕ_discrete

pub record NodeCheckpoint : Type 0 where
  pub key : CheckpointKey
  pub system_identifier : ℕ
  pub timeline : ℕ
  pub slot_name : Text
  pub applied_lsn : PgLsn

pub record StoredNodeCheckpoint : Type 0 where
  pub checkpoint : NodeCheckpoint
  pub fencing_token : ℤ

pub data AdvanceOutcome : Type 0 where
  inserted unchanged : AdvanceOutcome
  advanced : PgLsn → AdvanceOutcome

pub data CheckpointError : Type 0 where
  generation_out_of_range : ℕ → CheckpointError
  invalid_fencing_token invalid_timeline invalid_slot_name missing_fence : CheckpointError
  stale_fence : PipelineFence → ℕ × ℤ → CheckpointError
  fence_key_mismatch source_identity_changed : CheckpointError
  lsn_regression : PgLsn → PgLsn → CheckpointError
  unexpected_write_count : ℕ → CheckpointError

-- `pg2cb_meta.pipeline_state` and `pg2cb_meta.node_checkpoints`.
pub record TargetMeta : Type 0 where
  pub fences : Assoc ℕ (ℕ × ℤ)
  pub checkpoints : Assoc CheckpointKey StoredNodeCheckpoint

abbrev pub Checked : Type 0 → Type 0
Checked A = Result CheckpointError A

abbrev pub i64_max : ℕ
i64_max = 9_223_372_036_854_775_807

unfoldable pub database_generation : ℕ → Checked (Unit {0})
database_generation generation =
    if leb generation i64_max then ok tt else err (generation_out_of_range generation)

unfoldable pub validate_fence : PipelineFence → Checked (Unit {0})
validate_fence f = do
  database_generation f.topology_generation
  (if ltb_ℤ (pos 0) f.fencing_token then ok tt else err invalid_fencing_token)

unfoldable pub validate_checkpoint : NodeCheckpoint → Checked (Unit {0})
validate_checkpoint c = do
  database_generation c.key.topology_generation
  (if c.timeline == 0
      then err invalid_timeline
      else if is_empty c.slot_name || contains_nul c.slot_name
      then err invalid_slot_name
      else ok tt)

-- `ACTIVATE_PIPELINE_FENCE_SQL`: insert, or update where neither number falls; `none` is no row.
unfoldable pub may_activate : PipelineFence → Option (ℕ × ℤ) → Bool
may_activate f none = true
may_activate f (some (generation, token)) =
    leb generation f.topology_generation && not (ltb_ℤ f.fencing_token token)

unfoldable pub set_fence : TargetMeta → PipelineFence → TargetMeta
set_fence m f = record m {
  fences = insert ℕ_discrete f.pipeline_id (f.topology_generation, f.fencing_token) m.fences;
}

-- The fence that is reported to be in force.
unfoldable pub current_fence : Option (ℕ × ℤ) → ℕ × ℤ
current_fence none = (0, pos 0)
current_fence (some row) = row

unfoldable pub activate_pipeline_fence : TargetMeta → PipelineFence → Checked TargetMeta
activate_pipeline_fence m f = do
  database_generation f.topology_generation
  validate_fence f
  let row = get ℕ_discrete f.pipeline_id m.fences
  (if may_activate f row then ok (set_fence m f) else err (stale_fence f (current_fence row)))

unfoldable pub is_current_fence : PipelineFence → ℕ × ℤ → Bool
is_current_fence f (generation, token) =
    f.topology_generation == generation && is_yes (ℤ_discrete f.fencing_token token)

unfoldable pub check_fence : PipelineFence → Option (ℕ × ℤ) → Checked (Unit {0})
check_fence f none = err missing_fence
check_fence f (some row) = if is_current_fence f row then ok tt else err (stale_fence f row)

unfoldable pub lock_pipeline_fence : TargetMeta → PipelineFence → Checked (Unit {0})
lock_pipeline_fence m f = do
  database_generation f.topology_generation
  validate_fence f
  check_fence f (get ℕ_discrete f.pipeline_id m.fences)

unfoldable pub load_node_checkpoint :
    TargetMeta → CheckpointKey → Checked (Option StoredNodeCheckpoint)
load_node_checkpoint m key = do
  database_generation key.topology_generation
  ok (get CheckpointKey-discrete key m.checkpoints)

unfoldable pub is_same_identity : NodeCheckpoint → NodeCheckpoint → Bool
is_same_identity a b =
    is_yes (CheckpointKey-discrete a.key b.key)
    && (a.system_identifier == b.system_identifier
        && (a.timeline == b.timeline && is_yes (Bytes-discrete a.slot_name b.slot_name)))

unfoldable pub ensure_same_identity : NodeCheckpoint → NodeCheckpoint → Checked (Unit {0})
ensure_same_identity a b = if is_same_identity a b then ok tt else err source_identity_changed

-- `proposed.applied_lsn.cmp(&current)`.
unfoldable pub compare_lsn : PgLsn → PgLsn → Checked AdvanceOutcome
compare_lsn proposed current =
    if ltb proposed current
    then err (lsn_regression current proposed)
    else if proposed == current
    then ok unchanged
    else ok (advanced current)

unfoldable pub check_advance : Option StoredNodeCheckpoint → NodeCheckpoint → Checked AdvanceOutcome
check_advance none proposed = validate_checkpoint proposed >> ok inserted
check_advance (some current) proposed = do
  validate_checkpoint proposed
  ensure_same_identity current.checkpoint proposed
  compare_lsn proposed.applied_lsn current.checkpoint.applied_lsn

unfoldable pub checkpoint_reached : Option StoredNodeCheckpoint → NodeCheckpoint → Checked Bool
checkpoint_reached none required = validate_checkpoint required >> ok false
checkpoint_reached (some current) required = do
  validate_checkpoint required
  ensure_same_identity current.checkpoint required
  ok (leb required.applied_lsn current.checkpoint.applied_lsn)

unfoldable pub ensure_one_row : ℕ → Checked (Unit {0})
ensure_one_row written = if written == 1 then ok tt else err (unexpected_write_count written)

-- `INSERT_NODE_CHECKPOINT_SQL`: the rows written, and the table.
unfoldable pub insert_checkpoint : TargetMeta → PipelineFence → NodeCheckpoint → ℕ × TargetMeta
insert_checkpoint m f c = (
  1,
  record m {
    checkpoints =
        insert CheckpointKey-discrete c.key
          (record { checkpoint = c; fencing_token = f.fencing_token }) m.checkpoints;
  },
)

-- `UPDATE_NODE_CHECKPOINT_SQL` sets the position and the token of the row with the key.
unfoldable pub update_checkpoint :
    TargetMeta → PipelineFence → NodeCheckpoint → Option StoredNodeCheckpoint → ℕ × TargetMeta
update_checkpoint m f c none = (0, m)
update_checkpoint m f c (some old) = (
  1,
  record m {
    checkpoints =
        insert CheckpointKey-discrete c.key
          (record {
            checkpoint = record old.checkpoint { applied_lsn = c.applied_lsn };
            fencing_token = f.fencing_token;
          })
          m.checkpoints;
  },
)

unfoldable pub write_outcome :
    TargetMeta
    → PipelineFence
    → NodeCheckpoint
    → Option StoredNodeCheckpoint
    → AdvanceOutcome
    → ℕ × TargetMeta
write_outcome m f c existing inserted = insert_checkpoint m f c
write_outcome m f c existing unchanged = update_checkpoint m f c existing
write_outcome m f c existing (advanced previous_lsn) = update_checkpoint m f c existing

unfoldable pub is_fence_key : NodeCheckpoint → PipelineFence → Bool
is_fence_key c f =
    c.key.pipeline_id == f.pipeline_id && c.key.topology_generation == f.topology_generation

unfoldable pub advance_node_checkpoint :
    TargetMeta → PipelineFence → NodeCheckpoint → Checked (AdvanceOutcome × TargetMeta)
advance_node_checkpoint m f proposed = do
  validate_checkpoint proposed
  (if is_fence_key proposed f then ok tt else err fence_key_mismatch)
  lock_pipeline_fence m f
  database_generation proposed.key.topology_generation
  let existing = get CheckpointKey-discrete proposed.key m.checkpoints
  outcome ← check_advance existing proposed
  let written = write_outcome m f proposed existing outcome
  ensure_one_row written.0
  ok (outcome, written.1)
