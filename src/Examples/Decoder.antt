-- ===== src/Examples/Decoder.antt =====
-- Instances of the theorems on the decoder of crates/source-postgres/src/wal.rs.
use etl_server_cloudberry.Prelude.{
  ℤ, ◌≡◌, refl, ok, err, some, pos, true, Bool, [], ◌∷◌, Bytes, text, ℕ_discrete,
}
use etl_server_cloudberry.Prelude.Assoc.{get}
use etl_server_cloudberry.Core.Change.{TableChange, text_cell}
use etl_server_cloudberry.Core.Change
use etl_server_cloudberry.Source.Wal.{
  SourceResult, RelationEvent, external, insert_row, DecodedMessage, to_transaction_change,
}
use etl_server_cloudberry.Source.Wal
use etl_server_cloudberry.Source.Wal.Assembler
use etl_server_cloudberry.Source.Protocol.{LogicalReplicationMessage, RelationBody, InsertBody}
use etl_server_cloudberry.Source.Protocol
use etl_server_cloudberry.Source.Ddl.{DdlEnvelope}
use etl_server_cloudberry.Source.Wal.Decoder.{
  TransactionDecoder, new_decoder, relation_of, decode, decode_insert, require_transaction,
  require_relation, check_identity, relation_generation, generation_in, convert_tuple, convert_cell,
  WireReplicaIdentityKind-discrete,
}
use etl_server_cloudberry.Source.Wal.Decoder.Generations.{decode_all, decode_all-Newer, Newer}
use etl_server_cloudberry.Source.Wal.Decoder.Events.{IsRowOf, decode-IsRowOf}
use etl_server_cloudberry.Source.Wal.Decoder.Feeds.{IsFed, feed_all, feed_all-IsFed, reading}
use etl_server_cloudberry.Examples.Source.{node_one, seven}

abbrev no_json : Bytes → SourceResult DdlEnvelope
no_json payload = err (external 1)

abbrev any_time : ℤ → Bool
any_time micros = true

abbrev lines_at : RelationEvent
lines_at = record {
  relation_id = 5;
  namespace = text "public";
  name = text "lines";
  generation = 3;
  replica_identity = Wal.default;
  columns = [];
}

-- The same relation with other columns.
abbrev changed : LogicalReplicationMessage
changed = Protocol.relation (record {
  rel_id = 5;
  namespace = ok (text "public");
  name = ok (text "lines");
  replica_identity = Protocol.default;
  columns =
      record { flags = pos 1; name = ok (text "id"); type_id = pos 23; type_modifier = pos 0 } ∷ [];
})

abbrev inside : TransactionDecoder
inside = record { in_transaction = true; relations = (5, lines_at) ∷ [] }

abbrev inserted : LogicalReplicationMessage
inserted = Protocol.insert (record { rel_id = 5; tuple = Protocol.text (55 ∷ []) ∷ [] })

inside_knows : relation_of inside 5 ≡ some lines_at
unfolding relation_of get ℕ_discrete
inside_knows = refl

decode_all-Newer_example :
    (s : RelationEvent) × (relation_of
        (decode_all no_json any_time inside (inserted ∷ changed ∷ []))
        5
      ≡ some s)
    × Newer lines_at s
decode_all-Newer_example =
    decode_all-Newer no_json any_time (inserted ∷ changed ∷ []) inside 5 lines_at inside_knows

abbrev row_of_seven : TableChange
row_of_seven = record { relation_id = 5; generation = 3; change = Change.insert seven }

inserted_decodes : (decode no_json any_time inside inserted).0 ≡ ok (insert_row 5 3 seven)
unfolding decode decode_insert require_transaction require_relation check_identity
    relation_generation generation_in relation_of get ℕ_discrete WireReplicaIdentityKind-discrete
    convert_tuple convert_cell
inserted_decodes = refl

decode-IsRowOf_example : IsRowOf inside row_of_seven
unfolding to_transaction_change
decode-IsRowOf_example =
    decode-IsRowOf inside (insert_row 5 3 seven) row_of_seven refl no_json any_time inserted
      inserted_decodes

feed_all-IsFed_example : IsFed (
    feed_all no_json any_time (reading new_decoder (Assembler.new node_one)) (
      Protocol.begin (record { final_lsn = 100; timestamp = pos 5; xid = 700 })
      ∷ changed
      ∷ inserted
      ∷ Protocol.commit
          (record { commit_lsn = 200; end_lsn = 300; timestamp = pos 6; flags = pos 0 })
      ∷ []))
feed_all-IsFed_example = feed_all-IsFed no_json any_time node_one (
    Protocol.begin (record { final_lsn = 100; timestamp = pos 5; xid = 700 })
    ∷ changed
    ∷ inserted
    ∷ Protocol.commit (record { commit_lsn = 200; end_lsn = 300; timestamp = pos 6; flags = pos 0 })
    ∷ [])
