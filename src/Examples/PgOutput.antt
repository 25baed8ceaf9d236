-- ===== src/Examples/PgOutput.antt =====
-- Instances of the theorems on crates/engine/src/adapters/pgoutput.rs.
use etl_server_cloudberry.Prelude.{
  ◌≡◌, refl, ok, some, pos, true, List, [], ◌∷◌, ℤ_discrete, ℕ_discrete, arith,
}
use etl_server_cloudberry.Core.Change.{SourceTransaction}
use etl_server_cloudberry.Source.Wal.{
  DecodedMessage, begin, commit, keepalive, SourceResult, position,
}
use etl_server_cloudberry.Source.Wal.Assembler.{push, push_begin, push_commit, close, is_behind}
use etl_server_cloudberry.Engine.PgOutput.{
  PgOutputTransactionSource, from_transport, next_transaction, on_received, on_message, on_event,
  after_status, send_durable_status, send_result, later_results, validate_acknowledgement,
}
use etl_server_cloudberry.Engine.PgOutput.Reports.{
  next, ack, serve_all, serve_all-Sends, Sends, IsDurable,
}
use etl_server_cloudberry.Engine.PgOutput.Delivered.{handed_on-acknowledgeable}
use etl_server_cloudberry.Examples.Source.{idle_assembler, node_one}

-- The source resumes at 50.
abbrev resumed : PgOutputTransactionSource
resumed = from_transport [] idle_assembler 50

-- A keepalive that asks for a reply, and an empty transaction that ends at 300.
abbrev stream : List (SourceResult DecodedMessage)
stream =
    ok (keepalive 90 (pos 5) true)
    ∷ ok (begin 100 (pos 1_000) 700)
    ∷ ok (commit 200 300 (pos 2_000) (pos 0))
    ∷ []

abbrev first : SourceTransaction
first = record {
  xid = 700;
  commit_time = pos 2_000;
  final_position = position node_one 300;
  changes = [];
}

stream_emits : (next_transaction resumed stream).0 ≡ ok (some first)
unfolding next_transaction on_received on_message on_event after_status send_durable_status
    send_result later_results from_transport push push_begin push_commit close is_behind ℤ_discrete
    ℕ_discrete
stream_emits = refl

handed_on-acknowledgeable_example :
    validate_acknowledgement
      (serve_all
        (next_transaction resumed stream).1
        (next stream ∷ ack (position node_one 120) ∷ []))
      first.final_position
    ≡ ok tt
unfolding position from_transport
handed_on-acknowledgeable_example =
    handed_on-acknowledgeable resumed stream first (next stream ∷ ack (position node_one 120) ∷ [])
      stream_emits (omega arith) (tt, (omega arith, tt))

serve_all-Sends_example :
    Sends resumed (serve_all resumed (next stream ∷ ack (position node_one 300) ∷ []))
    × IsDurable resumed.durable_applied_lsn
        (next stream ∷ ack (position node_one 300) ∷ [])
        (serve_all resumed (next stream ∷ ack (position node_one 300) ∷ [])).durable_applied_lsn
serve_all-Sends_example = serve_all-Sends (next stream ∷ ack (position node_one 300) ∷ []) resumed
