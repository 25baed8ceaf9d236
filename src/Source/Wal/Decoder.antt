-- ===== src/Source/Wal/Decoder.antt =====
-- crates/source-postgres/src/wal.rs, `TransactionDecoder`: protocol messages become the events of the
-- assembler. The JSON parser of a DDL envelope and chrono's range of timestamps are parameters.
pub mod Generations
pub mod Changes
pub mod Events
pub mod Links
pub mod Feeds
use etl_server_cloudberry.Prelude.{
  ℕ, ℤ, pos, negsuc, ◌+◌, ◌*◌, ◌^◌, Bool, true, false, ◌&&◌, Option, none, some, List, [], ◌∷◌,
  Text, Bytes, ltb, ltb_ℤ, ◌==◌, if◌then◌else◌, is_yes, ℕ_discrete, ℤ_discrete, Bytes-discrete,
  add_nat, u64_max, Result, ok, err, ok_or, ◌>>=◌, ◌>>◌, traverse,
}
use etl_server_cloudberry.Prelude.Assoc.{Assoc, get, insert}
use etl_server_cloudberry.Core.Change.{Cell, null, unchanged_toast, text_cell, binary, Tuple}
use etl_server_cloudberry.Source.Wal.{
  SourceResult, WireReplicaIdentityKind, default, index, full, nothing, RelationColumn,
  RelationEvent, DecodedMessage, begin, commit, relation, insert_row, update_row, delete_row,
  truncate_tables, ddl_message, nested_begin, outside_transaction, unknown_relation,
  replica_identity_changed, generation_overflow, delete_without_key, commit_without_begin,
  negative_type_oid, timestamp_overflow, invalid_timestamp, unknown_prefix, unsupported_origin,
  unsupported_message,
}
use etl_server_cloudberry.Source.Wal
use etl_server_cloudberry.Source.Protocol.{
  TupleData, ReplicaIdentity, BeginBody, CommitBody, Column, RelationBody, TypeBody, InsertBody,
  UpdateBody, DeleteBody, TruncateBody, MessageBody, LogicalReplicationMessage,
}
use etl_server_cloudberry.Source.Protocol
use etl_server_cloudberry.Source.Ddl.{DdlEnvelope, ddl_message_prefix, decode_ddl_message}

pub record TransactionDecoder : Type 0 where
  pub in_transaction : Bool
  pub relations : Assoc ℕ RelationEvent

abbrev pub new_decoder : TransactionDecoder
new_decoder = record { in_transaction = false; relations = [] }

-- What `decode` returns, and the decoder that it leaves.
abbrev pub Decoding : Type 0
Decoding = SourceResult DecodedMessage × TransactionDecoder

unfoldable pub relation_of : TransactionDecoder → ℕ → Option RelationEvent
relation_of d relation_id = get ℕ_discrete relation_id d.relations

unfoldable pub WireReplicaIdentityKind-discrete : Discrete WireReplicaIdentityKind
WireReplicaIdentityKind-discrete = hlevel

unfoldable pub Columns-discrete : Discrete (List RelationColumn)
Columns-discrete = hlevel (ℕ_discrete, ℤ_discrete, Bytes-discrete)

unfoldable pub relation_shape_equal : RelationEvent → RelationEvent → Bool
relation_shape_equal left right =
    left.relation_id == right.relation_id
    && (is_yes (Bytes-discrete left.namespace right.namespace)
        && (is_yes (Bytes-discrete left.name right.name)
            && (is_yes
                  (WireReplicaIdentityKind-discrete left.replica_identity right.replica_identity)
                && is_yes (Columns-discrete left.columns right.columns))))

unfoldable pub map_replica_identity : ReplicaIdentity → WireReplicaIdentityKind
map_replica_identity Protocol.default = default
map_replica_identity Protocol.index = index
map_replica_identity Protocol.full = full
map_replica_identity Protocol.nothing = nothing

unfoldable pub convert_cell : TupleData → Cell
convert_cell Protocol.null = null
convert_cell Protocol.unchanged_toast = unchanged_toast
convert_cell (Protocol.text bytes) = text_cell bytes
convert_cell (Protocol.binary bytes) = binary bytes

unfoldable pub convert_tuple : List TupleData → SourceResult Tuple
convert_tuple fields = do
  cells ← traverse (λ value. ok (convert_cell value)) fields
  ok (record { cells = cells })

unfoldable pub type_oid_of : ℤ → SourceResult ℕ
type_oid_of (pos n) = ok n
type_oid_of (negsuc n) = err (negative_type_oid (negsuc n))

unfoldable pub convert_column : Column → SourceResult RelationColumn
convert_column column = do
  name ← column.name
  type_oid ← type_oid_of column.type_id
  ok (record {
    flags = column.flags;
    name = name;
    type_oid = type_oid;
    type_modifier = column.type_modifier;
  })

-- The event of a relation message, before its generation is known.
unfoldable pub relation_event : RelationBody → SourceResult RelationEvent
relation_event body = do
  namespace ← body.namespace
  name ← body.name
  columns ← traverse convert_column body.columns
  ok (record {
    relation_id = body.rel_id;
    namespace = namespace;
    name = name;
    generation = 1;
    replica_identity = map_replica_identity body.replica_identity;
    columns = columns;
  })

unfoldable pub next_generation : Option RelationEvent → RelationEvent → SourceResult ℕ
next_generation none event = ok event.generation
next_generation (some previous) event =
    if relation_shape_equal previous event
    then ok previous.generation
    else if ltb previous.generation u64_max
    then ok (previous.generation + 1)
    else err (generation_overflow event.relation_id)

unfoldable pub store_relation : TransactionDecoder → RelationEvent → SourceResult ℕ → Decoding
store_relation d event (err e) = (err e, d)
store_relation d event (ok generation) =
    let stored = record event { generation = generation } in
    (
      ok (relation stored),
      record d { relations = insert ℕ_discrete event.relation_id stored d.relations },
    )

unfoldable pub on_relation : TransactionDecoder → SourceResult RelationEvent → Decoding
on_relation d (err e) = (err e, d)
on_relation d (ok event) =
    store_relation d event (next_generation (relation_of d event.relation_id) event)

unfoldable pub require_transaction : TransactionDecoder → SourceResult (Unit {0})
require_transaction d = if d.in_transaction then ok tt else err outside_transaction

unfoldable pub check_identity : ℕ → Option RelationEvent → SourceResult (Unit {0})
check_identity relation_id none = err (unknown_relation relation_id)
check_identity relation_id (some r) =
    if is_yes (WireReplicaIdentityKind-discrete r.replica_identity default)
    then ok tt
    else err (replica_identity_changed relation_id)

unfoldable pub require_relation : TransactionDecoder → ℕ → SourceResult (Unit {0})
require_relation d relation_id = check_identity relation_id (relation_of d relation_id)

unfoldable pub generation_in : ℕ → Option RelationEvent → SourceResult ℕ
generation_in relation_id none = err (unknown_relation relation_id)
generation_in relation_id (some r) = ok r.generation

unfoldable pub relation_generation : TransactionDecoder → ℕ → SourceResult ℕ
relation_generation d relation_id = generation_in relation_id (relation_of d relation_id)

-- `key.or_else(|| old)`.
unfoldable pub or_else : Option (List TupleData) → Option (List TupleData) → Option (List TupleData)
or_else none old = old
or_else (some key) old = some key

-- `map(convert_tuple).transpose()`.
unfoldable pub convert_old_key : Option (List TupleData) → SourceResult (Option Tuple)
convert_old_key none = ok none
convert_old_key (some fields) = do key ← convert_tuple fields; ok (some key)

unfoldable pub decode_insert : TransactionDecoder → InsertBody → SourceResult DecodedMessage
decode_insert d body = do
  require_transaction d
  require_relation d body.rel_id
  generation ← relation_generation d body.rel_id
  new ← convert_tuple body.tuple
  ok (insert_row body.rel_id generation new)

unfoldable pub decode_update : TransactionDecoder → UpdateBody → SourceResult DecodedMessage
decode_update d body = do
  require_transaction d
  require_relation d body.rel_id
  old_key ← convert_old_key (or_else body.key_tuple body.old_tuple)
  generation ← relation_generation d body.rel_id
  new ← convert_tuple body.new_tuple
  ok (update_row body.rel_id generation old_key new)

unfoldable pub decode_delete : TransactionDecoder → DeleteBody → SourceResult DecodedMessage
decode_delete d body = do
  require_transaction d
  require_relation d body.rel_id
  fields ← ok_or (delete_without_key body.rel_id) (or_else body.key_tuple body.old_tuple)
  generation ← relation_generation d body.rel_id
  old_key ← convert_tuple fields
  ok (delete_row body.rel_id generation old_key)

unfoldable pub require_relations : TransactionDecoder → List ℕ → SourceResult (Unit {0})
require_relations d [] = ok tt
require_relations d (r ∷ rs) = let rest = require_relations d rs in require_relation d r >> rest

unfoldable pub decode_truncate : TransactionDecoder → TruncateBody → SourceResult DecodedMessage
decode_truncate d body = do
  require_transaction d
  require_relations d body.rel_ids
  ok (truncate_tables body.rel_ids body.options)

unfoldable pub decode_type : TypeBody → SourceResult DecodedMessage
decode_type body = do
  namespace ← body.namespace
  name ← body.name
  ok (Wal.type (record { type_id = body.id; namespace = namespace; name = name }))

unfoldable pub decode_origin : SourceResult Text → SourceResult DecodedMessage
decode_origin name = do name ← name; err unsupported_origin

-- `POSTGRES_EPOCH_UNIX_SECONDS.saturating_mul(1_000_000)`, which is far from the bound.
abbrev pub postgres_epoch_micros : ℕ
postgres_epoch_micros = 946_684_800 * 1_000_000

unfoldable pub i64_bound : ℤ
i64_bound = pos (2 ^ 63)

module _ (timestamp_micros : ℤ → Bool) where
  unfoldable pub postgres_timestamp : ℤ → SourceResult ℤ
  postgres_timestamp micros_since_2000 =
      let unix_micros = add_nat micros_since_2000 postgres_epoch_micros in
      if ltb_ℤ unix_micros i64_bound
      then if timestamp_micros unix_micros then ok unix_micros else err invalid_timestamp
      else err timestamp_overflow

  -- The flag is set before the timestamp is converted.
  unfoldable pub decode_begin : TransactionDecoder → BeginBody → Decoding
  decode_begin d body = if d.in_transaction then (err nested_begin, d) else (
    (do
      timestamp ← postgres_timestamp body.timestamp
      ok (begin body.final_lsn timestamp body.xid)),
    record d { in_transaction = true },
  )

  unfoldable pub decode_commit : TransactionDecoder → CommitBody → Decoding
  decode_commit d body =
      if d.in_transaction
      then (
        (do
          timestamp ← postgres_timestamp body.timestamp
          ok (commit body.commit_lsn body.end_lsn timestamp body.flags)),
        record d { in_transaction = false },
      )
      else (err commit_without_begin, d)

unfoldable pub decode_message :
    (Bytes → SourceResult DdlEnvelope)
    → TransactionDecoder
    → MessageBody
    → SourceResult DecodedMessage
decode_message from_slice d body = do
  require_transaction d
  prefix ← body.prefix
  content ← body.content
  if is_yes (Bytes-discrete prefix ddl_message_prefix) then ok tt else err unknown_prefix
  message ← decode_ddl_message from_slice prefix content
  ok (ddl_message message)

module _ (from_slice : Bytes → SourceResult DdlEnvelope) (timestamp_micros : ℤ → Bool) where
  unfoldable pub decode : TransactionDecoder → LogicalReplicationMessage → Decoding
  decode d (Protocol.begin body) = decode_begin timestamp_micros d body
  decode d (Protocol.commit body) = decode_commit timestamp_micros d body
  decode d (Protocol.relation body) = on_relation d (relation_event body)
  decode d (Protocol.type body) = (decode_type body, d)
  decode d (Protocol.insert body) = (decode_insert d body, d)
  decode d (Protocol.update body) = (decode_update d body, d)
  decode d (Protocol.delete body) = (decode_delete d body, d)
  decode d (Protocol.truncate body) = (decode_truncate d body, d)
  decode d (Protocol.message body) = (decode_message from_slice d body, d)
  decode d (Protocol.origin name) = (decode_origin name, d)
  decode d Protocol.other = (err unsupported_message, d)
