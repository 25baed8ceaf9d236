-- ===== src/Source/Wal.antt =====
-- crates/source-postgres/src/wal.rs: decoded pgoutput messages and the assembler that turns them
-- into committed transactions. `push` returns its result and the assembler that it leaves, since an
-- error may stand behind a change of state.
pub mod Assembler
pub mod Decoder
use etl_server_cloudberry.Prelude.{
  ℕ, ℤ, pos, Bool, true, false, not, ◌&&◌, ◌||◌, Option, none, some, List, [], ◌∷◌, ◌++◌, ◌%◌, ◌/◌,
  Text, Bytes, length, any, leb, ltb, ltb_ℤ, ◌==◌, if◌then◌else◌, is_yes, is_none, ℤ_discrete,
  ℕ_discrete, Result, ok, err, ◌>>=◌, ◌>>◌, saturating_add, wrapping_add, wrapping_mul,
}
use etl_server_cloudberry.Prelude.Assoc.{Assoc, get, insert}
use etl_server_cloudberry.Core.Change.{
  PgLsn, Cell, null, unchanged_toast, text_cell, binary, Tuple, RowChange, update, delete,
  TableChange, TransactionChange, row, truncate, ddl, SourceTransaction, SourcePosition, DdlMessage,
  DdlMessage-discrete,
}
use etl_server_cloudberry.Core.Change

-- The protocol violations that the assembler and the decoder report, by their cause. `contract`
-- and `unsupported` are the other kinds of `SourceError` that this file raises.
pub data SourceError : Type 0 where
  begin_before_commit : SourceError
  begin_behind_commit : PgLsn → PgLsn → SourceError
  event_without_begin : SourceError
  generation_not_current : ℕ → ℕ → SourceError
  too_many_changes : ℕ → ℕ → SourceError
  too_many_bytes : ℕ → ℕ → SourceError
  open_at_end : ℕ → SourceError
  zero_generation : ℕ → SourceError
  generation_backwards : ℕ → ℕ → ℕ → SourceError
  unsupported_commit_flags : ℤ → SourceError
  end_precedes_commit : PgLsn → PgLsn → SourceError
  commit_backwards : PgLsn → PgLsn → SourceError
  commit_without_begin : SourceError
  begins_after_commit : ℕ → SourceError
  commit_before_begin_time : ℕ → SourceError
  zero_limits : SourceError
  nested_begin : SourceError
  outside_transaction : SourceError
  unknown_relation : ℕ → SourceError
  replica_identity_changed : ℕ → SourceError
  generation_overflow : ℕ → SourceError
  delete_without_key : ℕ → SourceError
  negative_type_oid : ℤ → SourceError
  timestamp_overflow : SourceError
  invalid_timestamp : SourceError
  unknown_prefix : SourceError
  unsupported_origin : SourceError
  unsupported_message : SourceError
  external : ℕ → SourceError
  unknown_ddl_prefix : Text → SourceError
  unsupported_ddl_version : ℕ → SourceError
  invalid_relation_oid : Text → SourceError
  empty_ddl : SourceError
  invalid_affected_schema : SourceError
  invalid_schema : Text → SourceError

abbrev pub SourceResult : Type 0 → Type 0
SourceResult A = Result SourceError A

pub data WireReplicaIdentityKind : Type 0 where
  default index full nothing : WireReplicaIdentityKind

pub record RelationColumn : Type 0 where
  pub flags : ℤ
  pub name : Text
  pub type_oid : ℕ
  pub type_modifier : ℤ

pub record RelationEvent : Type 0 where
  pub relation_id : ℕ
  pub namespace : Text
  pub name : Text
  pub generation : ℕ
  pub replica_identity : WireReplicaIdentityKind
  pub columns : List RelationColumn

pub record TypeEvent : Type 0 where
  pub type_id : ℕ
  pub namespace : Text
  pub name : Text

-- The options byte of a truncate (`i8`) is its bit pattern, a number below 256.
pub data DecodedMessage : Type 0 where
  begin : PgLsn → ℤ → ℕ → DecodedMessage
  commit : PgLsn → PgLsn → ℤ → ℤ → DecodedMessage
  relation : RelationEvent → DecodedMessage
  type : TypeEvent → DecodedMessage
  insert_row : ℕ → ℕ → Tuple → DecodedMessage
  update_row : ℕ → ℕ → Option Tuple → Tuple → DecodedMessage
  delete_row : ℕ → ℕ → Tuple → DecodedMessage
  truncate_tables : List ℕ → ℕ → DecodedMessage
  ddl_message : DdlMessage → DecodedMessage
  keepalive : PgLsn → ℤ → Bool → DecodedMessage

abbrev table_change : ℕ → ℕ → RowChange → TransactionChange
table_change relation_id generation change =
    row (record { relation_id = relation_id; generation = generation; change = change })

unfoldable pub to_transaction_change : DecodedMessage → Option TransactionChange
to_transaction_change (insert_row r g new) = some (table_change r g (Change.insert new))
to_transaction_change (update_row r g old_key new) = some (table_change r g (update old_key new))
to_transaction_change (delete_row r g old_key) = some (table_change r g (delete old_key))
to_transaction_change (truncate_tables relation_ids options) =
    some (truncate relation_ids (options % 2 == 1) (options / 2 % 2 == 1))
to_transaction_change (ddl_message message) = some (ddl message)
to_transaction_change _ = none

pub record SourceNodeIdentity : Type 0 where
  pub node_id : ℤ
  pub system_identifier : ℕ
  pub timeline : ℕ

unfoldable pub position : SourceNodeIdentity → PgLsn → SourcePosition
position i lsn = record {
  node_id = i.node_id;
  system_identifier = i.system_identifier;
  timeline = i.timeline;
  lsn = lsn;
}

pub record TransactionLimits : Type 0 where
  pub max_changes : ℕ
  pub max_bytes : ℕ

abbrev pub default_limits : TransactionLimits
default_limits = record { max_changes = 1_000_000; max_bytes = 536_870_912 }

unfoldable pub validate : TransactionLimits → SourceResult (Unit {0})
validate l = if l.max_changes == 0 || l.max_bytes == 0 then err zero_limits else ok tt

pub record CommittedTransaction : Type 0 where
  pub transaction : SourceTransaction
  pub commit_lsn : PgLsn

pub data AssembledEvent : Type 0 where
  transaction : CommittedTransaction → AssembledEvent
  alive : PgLsn → ℤ → Bool → AssembledEvent

pub record PendingTransaction : Type 0 where
  pub xid : ℕ
  pub begin_lsn : PgLsn
  pub begin_time : ℤ
  pub changes : List TransactionChange
  pub buffered_bytes : ℕ

pub record TransactionAssembler : Type 0 where
  pub identity : SourceNodeIdentity
  pub limits : TransactionLimits
  pub pending : Option PendingTransaction
  pub last_commit_lsn : Option PgLsn
  pub relation_generations : Assoc ℕ ℕ
