-- ===== src/Source/Wal/Decoder/Changes.antt =====
-- crates/source-postgres/src/wal.rs: what the decoder makes of the messages that change rows or
-- tables, in the form in which the assembler takes them.
use etl_server_cloudberry.Prelude.{
  ℕ, ◌≡◌, refl, sym, ◌∙◌, then_ok, bind_ok, ok_inj, ok_or, Bytes-discrete, if◌then◌else◌, subst,
  inl, inr, true, some, Bytes, Option-cases, is_yes, is_yes-eq_true, ok, err, arith,
}
use etl_server_cloudberry.Core.Change.{TransactionChange, TableChange, row, update, delete}
use etl_server_cloudberry.Core.Change
use etl_server_cloudberry.Source.Wal.{
  RelationEvent, DecodedMessage, TransactionAssembler, to_transaction_change, default, SourceResult,
  delete_without_key, unknown_prefix,
}
use etl_server_cloudberry.Source.Wal.Assembler.{push, push_event, push_change}
use etl_server_cloudberry.Source.Protocol.{
  InsertBody, UpdateBody, DeleteBody, TruncateBody, MessageBody,
}
use etl_server_cloudberry.Source.Ddl.{DdlEnvelope, ddl_message_prefix, decode_ddl_message}
use etl_server_cloudberry.Source.Wal.Decoder.{
  TransactionDecoder, relation_of, require_relations, require_transaction, require_relation,
  relation_generation, check_identity, generation_in, decode_insert, decode_update, decode_delete,
  decode_truncate, decode_message, convert_tuple, convert_old_key, or_else,
  WireReplicaIdentityKind-discrete,
}

-- A row change has the generation of its relation, whose replica identity is the default one.
abbrev pub IsReady : TransactionDecoder → TransactionChange → Type 0
IsReady d (row c) =
    (r : RelationEvent) × (relation_of d c.relation_id ≡ some r)
    × (r.generation ≡ c.generation)
    × (r.replica_identity ≡ default)
IsReady d _ = Unit {0}

-- The event is a change that is ready, inside a transaction.
pub record IsChange (d : TransactionDecoder) (e : DecodedMessage) : Type 0 where
  pub change : TransactionChange
  pub converts : to_transaction_change e ≡ some change
  pub is_ready : IsReady d change
  pub is_open : d.in_transaction ≡ true
  pub pushes : (a : TransactionAssembler) → push a e ≡ push_change a change

module _ (d : TransactionDecoder) where
  known_relation :
      (k : ℕ)
      → require_relation d k ≡ ok tt
      → (r : RelationEvent) × (relation_of d k ≡ some r)
        × (relation_generation d k ≡ ok r.generation)
        × (r.replica_identity ≡ default)
  unfolding require_relation relation_generation check_identity generation_in
  known_relation k h = elim (Option-cases (relation_of d k)) [
    | inl e ↦ absurd (ground arith)
    | inr (r, e) ↦ (
      r,
      e,
      ground arith,
      ground (arith, is_yes-eq_true (WireReplicaIdentityKind-discrete r.replica_identity default)),
    )
  ]

  open_transaction : require_transaction d ≡ ok tt → d.in_transaction ≡ true
  unfolding require_transaction
  open_transaction h = ground arith

  row-IsChange :
      {e : DecodedMessage} (c : TableChange)
      → require_transaction d ≡ ok tt
      → require_relation d c.relation_id ≡ ok tt
      → relation_generation d c.relation_id ≡ ok c.generation
      → to_transaction_change e ≡ some (row c)
      → ((a : TransactionAssembler) → push a e ≡ push_change a (row c))
      → IsChange d e
  row-IsChange c t q g converts pushes =
      let (r, known, s, i) = known_relation c.relation_id q in
      record {
        change = row c;
        converts = converts;
        is_ready = (r, known, ok_inj (sym s ∙ g), i);
        is_open = open_transaction t;
        pushes = pushes;
      }

  pub decode_insert-IsChange :
      (body : InsertBody) (e : DecodedMessage) → decode_insert d body ≡ ok e → IsChange d e
  unfolding decode_insert push push_event to_transaction_change
  decode_insert-IsChange body e h =
      let (t, h1) = then_ok (require_transaction d) h in
      let (q, h2) = then_ok (require_relation d body.rel_id) h1 in
      let (g, s, h3) = bind_ok (relation_generation d body.rel_id) h2 in
      let (new, n, h4) = bind_ok (convert_tuple body.tuple) h3 in
      subst (IsChange d) (ok_inj h4) (
        row-IsChange
          (record { relation_id = body.rel_id; generation = g; change = Change.insert new }) t q s
          refl (λ a. refl))

  pub decode_update-IsChange :
      (body : UpdateBody) (e : DecodedMessage) → decode_update d body ≡ ok e → IsChange d e
  unfolding decode_update push push_event to_transaction_change
  decode_update-IsChange body e h =
      let (t, h1) = then_ok (require_transaction d) h in
      let (q, h2) = then_ok (require_relation d body.rel_id) h1 in
      let (old, o, h3) = bind_ok (convert_old_key (or_else body.key_tuple body.old_tuple)) h2 in
      let (g, s, h4) = bind_ok (relation_generation d body.rel_id) h3 in
      let (new, n, h5) = bind_ok (convert_tuple body.new_tuple) h4 in
      subst (IsChange d) (ok_inj h5) (
        row-IsChange (record { relation_id = body.rel_id; generation = g; change = update old new })
          t q s refl (λ a. refl))

  pub decode_delete-IsChange :
      (body : DeleteBody) (e : DecodedMessage) → decode_delete d body ≡ ok e → IsChange d e
  unfolding decode_delete push push_event to_transaction_change
  decode_delete-IsChange body e h =
      let (t, h1) = then_ok (require_transaction d) h in
      let (q, h2) = then_ok (require_relation d body.rel_id) h1 in
      let (fields, o, h3) =
        bind_ok (ok_or (delete_without_key body.rel_id) (or_else body.key_tuple body.old_tuple))
          h2 in
      let (g, s, h4) = bind_ok (relation_generation d body.rel_id) h3 in
      let (old, n, h5) = bind_ok (convert_tuple fields) h4 in
      subst (IsChange d) (ok_inj h5) (
        row-IsChange (record { relation_id = body.rel_id; generation = g; change = delete old }) t q
          s refl (λ a. refl))

  pub decode_truncate-IsChange :
      (body : TruncateBody) (e : DecodedMessage) → decode_truncate d body ≡ ok e → IsChange d e
  unfolding decode_truncate push push_event to_transaction_change
  decode_truncate-IsChange body e h =
      let (t, h1) = then_ok (require_transaction d) h in
      let (q, h2) = then_ok (require_relations d body.rel_ids) h1 in
      subst (IsChange d) (ok_inj h2) (record {
        change = _;
        converts = refl;
        is_ready = tt;
        is_open = open_transaction t;
        pushes = λ a. refl;
      })

  pub decode_message-IsChange :
      (from_slice : Bytes → SourceResult DdlEnvelope) (body : MessageBody) (e : DecodedMessage)
      → decode_message from_slice d body ≡ ok e
      → IsChange d e
  unfolding decode_message push push_event to_transaction_change
  decode_message-IsChange from_slice body e h =
      let (t, h1) = then_ok (require_transaction d) h in
      let (prefix, x, h2) = bind_ok body.prefix h1 in
      let (content, y, h3) = bind_ok body.content h2 in
      let (z, h4) =
        then_ok
          (if is_yes (Bytes-discrete prefix ddl_message_prefix) then ok tt else err unknown_prefix)
          h3 in
      let (message, m, h5) = bind_ok (decode_ddl_message from_slice prefix content) h4 in
      subst (IsChange d) (ok_inj h5) (record {
        change = _;
        converts = refl;
        is_ready = tt;
        is_open = open_transaction t;
        pushes = λ a. refl;
      })
