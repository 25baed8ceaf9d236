-- ===== src/Source/Wal/Decoder/Feeds.antt =====
-- crates/source-postgres/src/wal.rs: the decoder in front of the assembler, as the replication
-- stream and the source adapter of crates/engine/src/adapters/pgoutput.rs put them.
use etl_server_cloudberry.Prelude.{
  ℕ, ℤ, sym, ap, bind_ok, ok_inj, traverse, subst, ◌≡◌, refl, Bool, true, List, [], ◌∷◌, Bytes, ok,
  err,
}
use etl_server_cloudberry.Source.Wal.{
  SourceError, SourceResult, SourceNodeIdentity, RelationEvent, DecodedMessage,
  TransactionAssembler,
}
use etl_server_cloudberry.Source.Wal.Assembler.{
  Outcome, transaction_change_bytes, is_behind, previous_lsn, push_begin, close, push_commit,
  accept_relation, push_relation, push_event, push, relation_generation, is_generation, is_current,
  repeats_ddl, buffer, push_change,
}
use etl_server_cloudberry.Prelude.Assoc.{get}
use etl_server_cloudberry.Source.Protocol.{
  LogicalReplicationMessage, RelationBody, BeginBody, CommitBody, TypeBody,
}
use etl_server_cloudberry.Source.Protocol
use etl_server_cloudberry.Source.Wal.Decoder.Events.{
  decode_begin_ok, decode_commit_ok, decode_type_ok, decode_origin_err,
}
use etl_server_cloudberry.Source.Wal.Decoder.Links.{
  is_stream_fault, IsLinked, Linked, push_begin-Linked, push_commit-Linked, store_relation-Linked,
  change-Linked,
}
use etl_server_cloudberry.Source.Wal.Assembler
use etl_server_cloudberry.Source.Ddl.{DdlEnvelope}
use etl_server_cloudberry.Source.Wal.Decoder.Changes.{
  decode_insert-IsChange, decode_update-IsChange, decode_delete-IsChange, decode_truncate-IsChange,
  decode_message-IsChange,
}
use etl_server_cloudberry.Source.Wal.Decoder.{
  Decoding, TransactionDecoder, relation_of, next_generation, store_relation, on_relation,
  relation_event, convert_column, decode, new_decoder,
}

-- The event of a relation message starts with generation 1.
relation_event-generation :
    (body : RelationBody) (event : RelationEvent)
    → relation_event body ≡ ok event
    → event.generation ≡ 1
unfolding relation_event
relation_event-generation body event h =
    let (namespace, x, h1) = bind_ok body.namespace h in
    let (name, y, h2) = bind_ok body.name h1 in
    let (columns, z, h3) = bind_ok (traverse convert_column body.columns) h2 in
    ap (λ e. e.generation) (sym (ok_inj h3))

module _ (d : TransactionDecoder) (a : TransactionAssembler) (linked : IsLinked d a)
    (e : DecodedMessage) where
  stored_relation-Linked :
      (event : RelationEvent) (res : SourceResult ℕ)
      → next_generation (relation_of d event.relation_id) event ≡ res
      → event.generation ≡ 1
      → (store_relation d event res).0 ≡ ok e
      → Linked (store_relation d event res).1 (push a e)
  unfolding store_relation push
  stored_relation-Linked event (err f) n one h = absurd (cc)
  stored_relation-Linked event (ok g) n one h =
      subst (λ m. Linked (store_relation d event (ok g)).1 (push a m)) (ok_inj h)
        (store_relation-Linked linked event g n one)

  on_relation-Linked :
      (body : RelationBody) (res : SourceResult RelationEvent)
      → relation_event body ≡ res
      → (on_relation d res).0 ≡ ok e
      → Linked (on_relation d res).1 (push a e)
  unfolding on_relation
  on_relation-Linked body (err f) n h = absurd (cc)
  on_relation-Linked body (ok event) n h =
      stored_relation-Linked event _ refl (relation_event-generation body event n) h

module _ (from_slice : Bytes → SourceResult DdlEnvelope) (timestamp_micros : ℤ → Bool)
    (d : TransactionDecoder) (a : TransactionAssembler) (linked : IsLinked d a) where
  -- What the decoder accepts, the assembler either accepts too, and both agree again, or it refuses
  -- for a limit or for positions, flags or times of the stream that are out of order. It never
  -- refuses an event for its place outside or inside a transaction, nor for its generation.
  pub decode-Linked :
      (m : LogicalReplicationMessage) (e : DecodedMessage)
      → (decode from_slice timestamp_micros d m).0 ≡ ok e
      → Linked (decode from_slice timestamp_micros d m).1 (push a e)
  unfolding decode push
  decode-Linked (Protocol.begin body) e h =
      let (f, t, same, left) = decode_begin_ok timestamp_micros d body e h in
      rw (left, ← same) (push_begin-Linked linked body.final_lsn t body.xid f)
  decode-Linked (Protocol.commit body) e h =
      let (f, t, same, left) = decode_commit_ok timestamp_micros d body e h in
      rw (left, ← same) (push_commit-Linked linked body.commit_lsn body.end_lsn t body.flags f)
  decode-Linked (Protocol.relation body) e h = on_relation-Linked d a linked e body _ refl h
  decode-Linked (Protocol.type body) e h =
      let (t, same) = decode_type_ok body e h in rw (← same) linked
  decode-Linked (Protocol.insert body) e h =
      change-Linked linked e (decode_insert-IsChange d body e h)
  decode-Linked (Protocol.update body) e h =
      change-Linked linked e (decode_update-IsChange d body e h)
  decode-Linked (Protocol.delete body) e h =
      change-Linked linked e (decode_delete-IsChange d body e h)
  decode-Linked (Protocol.truncate body) e h =
      change-Linked linked e (decode_truncate-IsChange d body e h)
  decode-Linked (Protocol.message body) e h =
      change-Linked linked e (decode_message-IsChange d from_slice body e h)
  decode-Linked (Protocol.origin name) e h = absurd (decode_origin_err name e h)
  decode-Linked Protocol.other e h = absurd (cc)

-- The decoder and the assembler while they read, or the error that ended it.
pub data Feed : Type 0 where
  reading : TransactionDecoder → TransactionAssembler → Feed
  undecodable : SourceError → Feed
  refused : SourceError → Feed

abbrev after_push : TransactionDecoder → Outcome → Feed
after_push d (ok e, a) = reading d a
after_push d (err f, a) = refused f

abbrev after_decode : TransactionAssembler → Decoding → Feed
after_decode a (ok e, d) = after_push d (push a e)
after_decode a (err f, d) = undecodable f

abbrev pub IsFed : Feed → Type 0
IsFed (reading d a) = IsLinked d a
IsFed (undecodable f) = Unit {0}
IsFed (refused f) = is_stream_fault f ≡ true

module _ (from_slice : Bytes → SourceResult DdlEnvelope) (timestamp_micros : ℤ → Bool) where
  abbrev feed : Feed → LogicalReplicationMessage → Feed
  feed (reading d a) m = after_decode a (decode from_slice timestamp_micros d m)
  feed s m = s

  pub feed_all : Feed → List LogicalReplicationMessage → Feed
  feed_all s [] = s
  feed_all s (m ∷ ms) = feed_all (feed s m) ms

  after_push-IsFed : (d : TransactionDecoder) (o : Outcome) → Linked d o → IsFed (after_push d o)
  after_push-IsFed d (ok e, a) h = h
  after_push-IsFed d (err f, a) h = h

  after_decode-IsFed :
      (a : TransactionAssembler) (o : Decoding)
      → ((e : DecodedMessage) → o.0 ≡ ok e → Linked o.1 (push a e))
      → IsFed (after_decode a o)
  after_decode-IsFed a (ok e, d) h = after_push-IsFed d (push a e) (h e refl)
  after_decode-IsFed a (err f, d) h = tt

  feed-IsFed : (s : Feed) (m : LogicalReplicationMessage) → IsFed s → IsFed (feed s m)
  feed-IsFed (reading d a) m h =
      after_decode-IsFed a (decode from_slice timestamp_micros d m)
        (decode-Linked from_slice timestamp_micros d a h m)
  feed-IsFed (undecodable f) m h = h
  feed-IsFed (refused f) m h = h

  feed_all_lem : (ms : List LogicalReplicationMessage) (s : Feed) → IsFed s → IsFed (feed_all s ms)
  unfolding feed_all
  feed_all_lem [] s h = h
  feed_all_lem (m ∷ ms) s h = feed_all_lem ms (feed s m) (feed-IsFed s m h)

  new-IsLinked : (i : SourceNodeIdentity) → IsLinked new_decoder (Assembler.new i)
  unfolding Assembler.new relation_of relation_generation get
  new-IsLinked i = record {
    generations = λ k. refl;
    positive = λ k r e. absurd (cc);
    is_open = refl;
  }

  -- A new decoder and a new assembler read any sequence of messages until the decoder refuses one or
  -- the assembler does, and until then they agree on the open transaction and on every relation's
  -- generation. The assembler refuses only for a limit, or for positions, flags or times of the
  -- stream that are out of order: never for an event outside or inside a transaction, and never for
  -- its generation.
  pub feed_all-IsFed :
      (i : SourceNodeIdentity) (ms : List LogicalReplicationMessage)
      → IsFed (feed_all (reading new_decoder (Assembler.new i)) ms)
  feed_all-IsFed i ms = feed_all_lem ms _ (new-IsLinked i)
