-- ===== src/Source/Wal/Decoder/Events.antt =====
-- crates/source-postgres/src/wal.rs: the events of the decoder by the message they come from.
use etl_server_cloudberry.Prelude.{
  Result-cases, ℤ, sym, ap, ◌∙◌, some_inj, some, bind_ok, ok_inj, subst, ◌≡◌, inl, inr, Bool, true,
  false, Bytes, Text, Bool-cases, ok, err, arith,
}
use etl_server_cloudberry.Source.Wal.{
  relation, SourceError, default, SourceResult, SourceNodeIdentity, begin, commit, TypeEvent,
  RelationEvent, DecodedMessage, PendingTransaction, TransactionAssembler, begin_behind_commit,
  too_many_changes, too_many_bytes, unsupported_commit_flags, end_precedes_commit, commit_backwards,
  begins_after_commit, commit_before_begin_time, to_transaction_change,
}
use etl_server_cloudberry.Source.Wal
use etl_server_cloudberry.Source.Protocol.{
  LogicalReplicationMessage, RelationBody, BeginBody, CommitBody, TypeBody,
}
use etl_server_cloudberry.Source.Protocol
use etl_server_cloudberry.Core.Change.{TableChange, row}
use etl_server_cloudberry.Source.Ddl.{DdlEnvelope}
use etl_server_cloudberry.Source.Wal.Decoder.Changes.{
  IsReady, IsChange, decode_insert-IsChange, decode_update-IsChange, decode_delete-IsChange,
  decode_truncate-IsChange, decode_message-IsChange,
}
use etl_server_cloudberry.Source.Wal.Decoder.{
  TransactionDecoder, relation_of, next_generation, store_relation, on_relation, relation_event,
  decode_begin, decode_commit, decode_type, decode_origin, postgres_timestamp, decode,
}

pub decode_begin_ok :
    (timestamp_micros : ℤ → Bool) (d : TransactionDecoder) (body : BeginBody) (e : DecodedMessage)
    → (decode_begin timestamp_micros d body).0 ≡ ok e
    → (d.in_transaction ≡ false)
      × (t : ℤ) × (begin body.final_lsn t body.xid ≡ e)
      × ((decode_begin timestamp_micros d body).1 ≡ record d { in_transaction = true })
unfolding decode_begin
decode_begin_ok timestamp_micros d body e h = elim (Bool-cases d.in_transaction) [
  | inl t ↦ absurd (ground arith)
  | inr f ↦
      let (t, x, h1) =
        bind_ok (postgres_timestamp timestamp_micros body.timestamp)
          {f = λ t. ok (begin body.final_lsn t body.xid)} (ground arith) in
      (f, t, ok_inj h1, ground arith)
]

pub decode_commit_ok :
    (timestamp_micros : ℤ → Bool) (d : TransactionDecoder) (body : CommitBody) (e : DecodedMessage)
    → (decode_commit timestamp_micros d body).0 ≡ ok e
    → (d.in_transaction ≡ true)
      × (t : ℤ) × (commit body.commit_lsn body.end_lsn t body.flags ≡ e)
      × ((decode_commit timestamp_micros d body).1 ≡ record d { in_transaction = false })
unfolding decode_commit
decode_commit_ok timestamp_micros d body e h = elim (Bool-cases d.in_transaction) [
  | inr f ↦ absurd (ground arith)
  | inl f ↦
      let (t, x, h1) =
        bind_ok (postgres_timestamp timestamp_micros body.timestamp)
          {f = λ t. ok (commit body.commit_lsn body.end_lsn t body.flags)} (ground arith) in
      (f, t, ok_inj h1, ground arith)
]

pub decode_type_ok :
    (body : TypeBody) (e : DecodedMessage)
    → decode_type body ≡ ok e
    → (t : TypeEvent) × (Wal.type t ≡ e)
unfolding decode_type
decode_type_ok body e h =
    let (namespace, x, h1) = bind_ok body.namespace h in
    let (name, y, h2) = bind_ok body.name h1 in (_, ok_inj h2)

pub decode_origin_err :
    (name : SourceResult Text) (e : DecodedMessage) → ¬ (decode_origin name ≡ ok e)
unfolding decode_origin
decode_origin_err (ok name) e h = cc
decode_origin_err (err f) e h = cc

on_relation_ok :
    (d : TransactionDecoder) (res : SourceResult RelationEvent) (e : DecodedMessage)
    → (on_relation d res).0 ≡ ok e
    → (r : RelationEvent) × (relation r ≡ e)
unfolding on_relation store_relation
on_relation_ok d (err f) e h = absurd (cc)
on_relation_ok d (ok event) e h =
    elim (Result-cases (next_generation (relation_of d event.relation_id) event)) [
      | inl (g, n) ↦ (record event { generation = g }, ground arith)
      | inr (f, n) ↦ absurd (ground arith)
    ]

-- A change that the decoder hands on for the table `c.relation_id`.
abbrev pub IsRowOf : TransactionDecoder → TableChange → Type 0
IsRowOf d c =
    (d.in_transaction ≡ true)
    × (r : RelationEvent) × (relation_of d c.relation_id ≡ some r)
    × (r.generation ≡ c.generation)
    × (r.replica_identity ≡ default)

module _ (d : TransactionDecoder) (e : DecodedMessage) (c : TableChange)
    (converts : to_transaction_change e ≡ some (row c)) where
  IsChange-IsRowOf : IsChange d e → IsRowOf d c
  IsChange-IsRowOf x =
      let (r, known, g, i) = subst (IsReady d) (some_inj (sym x.converts ∙ converts)) x.is_ready in
      (x.is_open, r, known, g, i)

  -- A row change is only decoded inside a transaction, for a relation that the decoder knows and
  -- whose replica identity is the default one, and it carries the relation's generation.
  pub decode-IsRowOf :
      (from_slice : Bytes → SourceResult DdlEnvelope) (timestamp_micros : ℤ → Bool)
      (m : LogicalReplicationMessage)
      → (decode from_slice timestamp_micros d m).0 ≡ ok e
      → IsRowOf d c
  unfolding decode to_transaction_change
  decode-IsRowOf from_slice timestamp_micros (Protocol.begin body) h =
      let (f, t, same, left) = decode_begin_ok timestamp_micros d body e h in
      absurd (ground (arith, ap to_transaction_change same))
  decode-IsRowOf from_slice timestamp_micros (Protocol.commit body) h =
      let (f, t, same, left) = decode_commit_ok timestamp_micros d body e h in
      absurd (ground (arith, ap to_transaction_change same))
  decode-IsRowOf from_slice timestamp_micros (Protocol.relation body) h =
      let (r, same) = on_relation_ok d (relation_event body) e h in
      absurd (ground (arith, ap to_transaction_change same))
  decode-IsRowOf from_slice timestamp_micros (Protocol.type body) h =
      let (t, same) = decode_type_ok body e h in
      absurd (ground (arith, ap to_transaction_change same))
  decode-IsRowOf from_slice timestamp_micros (Protocol.insert body) h =
      IsChange-IsRowOf (decode_insert-IsChange d body e h)
  decode-IsRowOf from_slice timestamp_micros (Protocol.update body) h =
      IsChange-IsRowOf (decode_update-IsChange d body e h)
  decode-IsRowOf from_slice timestamp_micros (Protocol.delete body) h =
      IsChange-IsRowOf (decode_delete-IsChange d body e h)
  decode-IsRowOf from_slice timestamp_micros (Protocol.truncate body) h =
      IsChange-IsRowOf (decode_truncate-IsChange d body e h)
  decode-IsRowOf from_slice timestamp_micros (Protocol.message body) h =
      IsChange-IsRowOf (decode_message-IsChange d from_slice body e h)
  decode-IsRowOf from_slice timestamp_micros (Protocol.origin name) h =
      absurd (decode_origin_err name e h)
  decode-IsRowOf from_slice timestamp_micros Protocol.other h = absurd (cc)
