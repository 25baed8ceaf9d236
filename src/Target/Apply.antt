-- ===== src/Target/Apply.antt =====
-- crates/target-cloudberry/src/apply.rs: one target transaction that applies the staged rows of a
-- batch and advances the node's checkpoint. The database that executes the statements of a plan is a
-- parameter; the fence and the checkpoints are those of checkpoint.rs.
pub mod Rows
pub mod Statements
pub mod Executed
use etl_server_cloudberry.Prelude.{
  ℕ, ℤ, Bool, true, false, not, Option, none, some, List, [], ◌∷◌, ◌++◌, Bytes, Text, text, length,
  get_elem?, any, map, is_none, is_empty, is_yes, ◌==◌, if◌then◌else◌, Result, ok, err, ok_or,
  ◌>>=◌, ◌>>◌, traverse, saturating_add, Bytes-discrete,
}
use etl_server_cloudberry.Core.Change.{Cell, null, unchanged_toast, text_cell}
use etl_server_cloudberry.Core.Schema.{QualifiedName, name_to_string}
use etl_server_cloudberry.Target.Copy.{CopyEncodeError, encode_row}
use etl_server_cloudberry.Target.Checkpoint.{
  CheckpointError, PipelineFence, NodeCheckpoint, AdvanceOutcome, TargetMeta, lock_pipeline_fence,
  advance_node_checkpoint,
}
use etl_server_cloudberry.Engine.Normalize.{StageOperation, upsert, delete, move, StagingRow}

-- `panic` is an index out of range.
pub data ApplyError : Type 0 where
  database : Text → ApplyError
  checkpoint : CheckpointError → ApplyError
  copy : CopyEncodeError → ApplyError
  invalid_row_arity : ℕ → ℕ → ApplyError
  missing_primary_key : Text → ApplyError
  invalid_old_key_arity : ℕ → ℕ → ApplyError
  missing_old_primary_key unexpected_old_primary_key : ApplyError
  missing_old_primary_key_column : Text → ApplyError
  duplicate_staging_name : Text → ApplyError
  invalid_batch : Text → ApplyError
  panic : ApplyError

abbrev pub ApplyResult : Type 0 → Type 0
ApplyResult A = Result ApplyError A

pub record PresenceColumn : Type 0 where
  pub source_column_index : ℕ
  pub source_column_name : Text
  pub staging_column_name : Text

pub record OldKeyColumn : Type 0 where
  pub source_column_index : ℕ
  pub source_column_name : Text
  pub staging_column_name : Text
  pub type_sql : Text

pub record CopyLayout : Type 0 where
  pub operation_column : Text
  pub data_columns : List Text
  pub presence_columns : List PresenceColumn
  pub old_key_present_column : Text
  pub old_key_columns : List OldKeyColumn

-- crates/target-cloudberry/src/schema.rs
pub record ColumnPlan : Type 0 where
  pub source_attnum : ℤ
  pub name : Text
  pub type_sql : Text
  pub nullable : Bool
  pub primary_key_ordinal : Option ℕ

-- Without the storage, which has one value, and the user types that the table needs.
pub record CreateTablePlan : Type 0 where
  pub target : QualifiedName
  pub columns : List ColumnPlan
  pub primary_key : List Text
  pub distribution_key : List Text
  pub create_sql : Text

pub record ApplyPlan : Type 0 where
  pub table : CreateTablePlan
  pub staging_name : Text
  pub copy_layout : CopyLayout
  pub create_staging_sql : Text
  pub copy_sql : Text
  pub validation_sql : Text
  pub delete_sql : Text
  pub move_sql : Text
  pub delete_moved_sql : Text
  pub update_sql : Option Text
  pub insert_sql : Text

pub record TableApplyBatch : Type 0 where
  pub plan : ApplyPlan
  pub rows : List StagingRow

pub record ApplyRequest : Type 0 where
  pub fence : PipelineFence
  pub checkpoint : NodeCheckpoint
  pub tables : List TableApplyBatch

pub record ApplyCounts : Type 0 where
  pub staged_rows : ℕ
  pub deleted_rows : ℕ
  pub moved_rows : ℕ
  pub updated_rows : ℕ
  pub inserted_rows : ℕ

pub record ApplyOutcome : Type 0 where
  pub counts : ApplyCounts
  pub checkpoint : AdvanceOutcome

unfoldable pub is_absent : Cell → Bool
is_absent null = true
is_absent unchanged_toast = true
is_absent _ = false

unfoldable pub check_keys : List ColumnPlan → List Cell → ApplyResult (Unit {0})
check_keys (column ∷ columns) (cell ∷ cells) =
    let rest = check_keys columns cells in
    if is_none column.primary_key_ordinal
    then rest
    else if is_absent cell
    then err (missing_primary_key column.name)
    else rest
check_keys _ _ = ok tt

unfoldable pub check_operation : StageOperation → Option (List Cell) → ApplyResult (Unit {0})
check_operation move none = err missing_old_primary_key
check_operation upsert (some old_key) = err unexpected_old_primary_key
check_operation delete (some old_key) = err unexpected_old_primary_key
check_operation _ _ = ok tt

unfoldable pub check_old_cells : List OldKeyColumn → List Cell → ApplyResult (Unit {0})
check_old_cells (column ∷ columns) (cell ∷ cells) =
    let rest = check_old_cells columns cells in
    if is_absent cell then err (missing_old_primary_key_column column.source_column_name) else rest
check_old_cells _ _ = ok tt

unfoldable pub check_old_key : List OldKeyColumn → Option (List Cell) → ApplyResult (Unit {0})
check_old_key columns none = ok tt
check_old_key columns (some old_key) =
    if length old_key == length columns
    then check_old_cells columns old_key
    else err (invalid_old_key_arity (length columns) (length old_key))

unfoldable pub operation_cell : StageOperation → Cell
operation_cell upsert = text_cell (text "U")
operation_cell delete = text_cell (text "D")
operation_cell move = text_cell (text "M")

abbrev pub flag : Bool → Cell
flag b = text_cell (if b then text "t" else text "f")

unfoldable pub placeholder : Cell → Cell
placeholder unchanged_toast = null
placeholder cell = cell

abbrev pub is_unchanged : Cell → Bool
is_unchanged unchanged_toast = true
is_unchanged _ = false

unfoldable pub presence_cell : List Cell → PresenceColumn → ApplyResult Cell
presence_cell cells presence = do
  cell ← ok_or panic (get_elem? cells presence.source_column_index)
  ok (flag (not (is_unchanged cell)))

unfoldable pub old_key_fields : List OldKeyColumn → Option (List Cell) → List Cell
old_key_fields columns none = flag false ∷ map (λ c. null) columns
old_key_fields columns (some old_key) = flag true ∷ old_key

-- The fields of a staging row, before they are encoded.
unfoldable pub staging_fields : ApplyPlan → StagingRow → ApplyResult (List Cell)
staging_fields plan row = do
  presence ← traverse (presence_cell row.cells) plan.copy_layout.presence_columns
  ok (
      operation_cell row.operation
      ∷ (map placeholder row.cells
          ++ (presence ++ old_key_fields plan.copy_layout.old_key_columns row.old_key)))

abbrev of_copy : Result CopyEncodeError Bytes → ApplyResult Bytes
of_copy (ok bytes) = ok bytes
of_copy (err e) = err (copy e)

unfoldable pub encode_staging_row : ApplyPlan → StagingRow → ApplyResult Bytes
encode_staging_row plan row = do
  if length row.cells == length plan.table.columns
      then ok tt
      else err (invalid_row_arity (length plan.table.columns) (length row.cells))
  check_keys plan.table.columns row.cells
  check_operation row.operation row.old_key
  check_old_key plan.copy_layout.old_key_columns row.old_key
  fields ← staging_fields plan row
  of_copy (encode_row fields)

unfoldable pub check_staging_names : List Text → List TableApplyBatch → ApplyResult (Unit {0})
check_staging_names seen [] = ok tt
check_staging_names seen (t ∷ ts) =
    let rest = check_staging_names (t.plan.staging_name ∷ seen) ts in
    if any (λ name. is_yes (Bytes-discrete name t.plan.staging_name)) seen
    then err (duplicate_staging_name t.plan.staging_name)
    else rest

unfoldable pub validate_request : ApplyRequest → ApplyResult (Unit {0})
validate_request request = check_staging_names [] request.tables

abbrev of_checkpoint {ℓ} : {A : Type ℓ} → Result CheckpointError A → Result ApplyError A
of_checkpoint (ok a) = ok a
of_checkpoint (err e) = err (checkpoint e)

-- What a transaction asks of the database, on the data `D` that it sees.
pub record Database (D : Type 0) : Type 0 where
  pub batch_execute : Text → D → ApplyResult D
  pub copy_in : Text → D → ApplyResult D
  pub finish_copy : List Bytes → D → ApplyResult (ℕ × D)
  pub query_bool : Text → D → ApplyResult Bool
  pub execute : Text → D → ApplyResult (ℕ × D)
  pub commit : D → ApplyResult D

abbrev pub no_counts : ApplyCounts
no_counts = record {
  staged_rows = 0;
  deleted_rows = 0;
  moved_rows = 0;
  updated_rows = 0;
  inserted_rows = 0;
}

module _ {D : Type 0} (db : Database D) where
  unfoldable pub check_batch : TableApplyBatch → Bool → ApplyResult (Unit {0})
  check_batch t invalid =
      if invalid then err (invalid_batch (name_to_string t.plan.table.target)) else ok tt

  unfoldable pub execute_optional : Option Text → D → ApplyResult (ℕ × D)
  execute_optional none d = ok (0, d)
  execute_optional (some sql) d = db.execute sql d

  -- The staging table of one table, filled and validated.
  unfoldable pub fill_staging : TableApplyBatch → D → ApplyResult (ℕ × D)
  fill_staging t d = do
    created ← db.batch_execute t.plan.create_staging_sql d
    copying ← db.copy_in t.plan.copy_sql created
    encoded ← traverse (encode_staging_row t.plan) t.rows
    copied ← db.finish_copy encoded copying
    invalid ← db.query_bool t.plan.validation_sql copied.1
    check_batch t invalid
    ok copied

  -- The staged rows, merged into the table.
  unfoldable pub merge_staging : TableApplyBatch → ApplyCounts → D → ApplyResult (ApplyCounts × D)
  merge_staging t counts d = do
    deleted ← db.execute t.plan.delete_sql d
    moved ← db.execute t.plan.move_sql deleted.1
    gone ← db.execute t.plan.delete_moved_sql moved.1
    updated ← execute_optional t.plan.update_sql gone.1
    inserted ← db.execute t.plan.insert_sql updated.1
    ok (
      record counts {
        deleted_rows = saturating_add (saturating_add counts.deleted_rows deleted.0) gone.0;
        moved_rows = saturating_add counts.moved_rows moved.0;
        updated_rows = saturating_add counts.updated_rows updated.0;
        inserted_rows = saturating_add counts.inserted_rows inserted.0;
      },
      inserted.1,
    )

  -- The statements of one table with staged rows.
  unfoldable pub stage_table : TableApplyBatch → ApplyCounts → D → ApplyResult (ApplyCounts × D)
  stage_table t counts d = do
    copied ← fill_staging t d
    merge_staging t (record counts { staged_rows = saturating_add counts.staged_rows copied.0 })
        copied.1

  unfoldable pub apply_table : TableApplyBatch → ApplyCounts → D → ApplyResult (ApplyCounts × D)
  apply_table t counts d = if is_empty t.rows then ok (counts, d) else stage_table t counts d

  unfoldable pub apply_tables :
      List TableApplyBatch → ApplyCounts → D → ApplyResult (ApplyCounts × D)
  apply_tables [] counts d = ok (counts, d)
  apply_tables (t ∷ ts) counts d =
      apply_table t counts d >>= (λ applied. apply_tables ts applied.0 applied.1)

  -- The transaction; one that returns an error is rolled back, data and checkpoints.
  unfoldable pub execute_apply :
      TargetMeta → D → ApplyRequest → ApplyResult (ApplyOutcome × (TargetMeta × D))
  execute_apply m d request = do
    validate_request request
    of_checkpoint (lock_pipeline_fence m request.fence)
    applied ← apply_tables request.tables no_counts d
    advanced ← of_checkpoint (advance_node_checkpoint m request.fence request.checkpoint)
    committed ← db.commit applied.1
    ok (record { counts = applied.0; checkpoint = advanced.0 }, (advanced.1, committed))
