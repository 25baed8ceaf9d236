-- ===== src/Source/Protocol.antt =====
-- The messages of the fork of postgres-replication that crates/source-postgres/src/wal.rs decodes, as
-- the decoder sees them: a message is what the accessors that the decoder calls return, and an
-- accessor that may fail has a result as its field.
use etl_server_cloudberry.Prelude.{ℕ, ℤ, Bytes, Text, List, Option}
use etl_server_cloudberry.Source.Wal.{SourceResult}

pub data ReplicaIdentity : Type 0 where
  default index full nothing : ReplicaIdentity

pub data TupleData : Type 0 where
  null unchanged_toast : TupleData
  text : Bytes → TupleData
  binary : Bytes → TupleData

pub record BeginBody : Type 0 where
  pub final_lsn : ℕ
  pub timestamp : ℤ
  pub xid : ℕ

pub record CommitBody : Type 0 where
  pub commit_lsn : ℕ
  pub end_lsn : ℕ
  pub timestamp : ℤ
  pub flags : ℤ

pub record Column : Type 0 where
  pub flags : ℤ
  pub name : SourceResult Text
  pub type_id : ℤ
  pub type_modifier : ℤ

pub record RelationBody : Type 0 where
  pub rel_id : ℕ
  pub namespace : SourceResult Text
  pub name : SourceResult Text
  pub replica_identity : ReplicaIdentity
  pub columns : List Column

pub record TypeBody : Type 0 where
  pub id : ℕ
  pub namespace : SourceResult Text
  pub name : SourceResult Text

pub record InsertBody : Type 0 where
  pub rel_id : ℕ
  pub tuple : List TupleData

pub record UpdateBody : Type 0 where
  pub rel_id : ℕ
  pub key_tuple : Option (List TupleData)
  pub old_tuple : Option (List TupleData)
  pub new_tuple : List TupleData

pub record DeleteBody : Type 0 where
  pub rel_id : ℕ
  pub key_tuple : Option (List TupleData)
  pub old_tuple : Option (List TupleData)

pub record TruncateBody : Type 0 where
  pub rel_ids : List ℕ
  pub options : ℕ

pub record MessageBody : Type 0 where
  pub prefix : SourceResult Text
  pub content : SourceResult Bytes

pub data LogicalReplicationMessage : Type 0 where
  begin : BeginBody → LogicalReplicationMessage
  commit : CommitBody → LogicalReplicationMessage
  relation : RelationBody → LogicalReplicationMessage
  type : TypeBody → LogicalReplicationMessage
  insert : InsertBody → LogicalReplicationMessage
  update : UpdateBody → LogicalReplicationMessage
  delete : DeleteBody → LogicalReplicationMessage
  truncate : TruncateBody → LogicalReplicationMessage
  message : MessageBody → LogicalReplicationMessage
  origin : SourceResult Text → LogicalReplicationMessage
  other : LogicalReplicationMessage
