-- ===== src/Core/Change.antt =====
-- crates/core/src/change.rs: row changes, transactions and their positions; crates/core/src/lsn.rs
-- for the position type.
use etl_server_cloudberry.Prelude.{
  ℕ, ℤ, Bool, true, false, Option, List, Bytes, Text, length, ◌==◌, if◌then◌else◌, ℕ_discrete, ok,
  err,
}
use etl_server_cloudberry.Core.Schema.{TableSchema, CoreResult, invalid_tuple_arity}

-- `PgLsn` wraps a `u64`; positions are compared as numbers.
abbrev pub PgLsn : Type 0
PgLsn = ℕ

pub data Cell : Type 0 where
  null : Cell
  unchanged_toast : Cell
  text_cell : Bytes → Cell
  binary : Bytes → Cell

pub record Tuple : Type 0 where
  pub cells : List Cell

-- `Tuple::validate`.
unfoldable pub validate_arity : Tuple → TableSchema → CoreResult (Unit {0})
validate_arity t schema =
    if length t.cells == length schema.columns
    then ok tt
    else err (invalid_tuple_arity schema.relation_id (length schema.columns) (length t.cells))

pub data RowChange : Type 0 where
  insert : Tuple → RowChange
  update : Option Tuple → Tuple → RowChange
  delete : Tuple → RowChange

pub record TableChange : Type 0 where
  pub relation_id : ℕ
  pub generation : ℕ
  pub change : RowChange

pub record SourcePosition : Type 0 where
  pub node_id : ℤ
  pub system_identifier : ℕ
  pub timeline : ℕ
  pub lsn : PgLsn

pub record DdlMessage : Type 0 where
  pub version : ℕ
  pub command_tag : Text
  pub relation_ids : List ℕ
  pub affected_schemas : List Text
  pub schema_fingerprint : Text

pub DdlMessage-discrete : Discrete DdlMessage
DdlMessage-discrete = hlevel ℕ_discrete

pub data TransactionChange : Type 0 where
  row : TableChange → TransactionChange
  truncate : List ℕ → Bool → Bool → TransactionChange
  ddl : DdlMessage → TransactionChange

-- `commit_time` is in microseconds of the Unix epoch.
pub record SourceTransaction : Type 0 where
  pub xid : ℕ
  pub commit_time : ℤ
  pub final_position : SourcePosition
  pub changes : List TransactionChange

unfoldable pub requires_generation_barrier : TransactionChange → Bool
requires_generation_barrier (row change) = false
requires_generation_barrier (truncate relation_ids cascade restart_identity) = true
requires_generation_barrier (ddl message) = true
