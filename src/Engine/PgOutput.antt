-- ===== src/Engine/PgOutput.antt =====
-- crates/engine/src/adapters/pgoutput.rs: the source of committed transactions. The transport is what
-- it delivers, the results of the status messages that are sent through it, and the status messages
-- that were sent.
pub mod Reports
pub mod Kept
pub mod Delivered
use etl_server_cloudberry.Prelude.{
  ℕ, ℤ, Bool, true, false, ◌||◌, not, Option, none, some, List, [], ◌∷◌, ◌++◌, any, ltb, leb, ◌==◌,
  if◌then◌else◌, is_yes, ℤ_discrete, Result, ok, err, ◌>>◌,
}
use etl_server_cloudberry.Core.Change.{PgLsn, SourcePosition, SourceTransaction}
use etl_server_cloudberry.Source.Wal.{
  SourceError, SourceResult, DecodedMessage, SourceNodeIdentity, AssembledEvent, transaction, alive,
  CommittedTransaction, TransactionAssembler,
}
use etl_server_cloudberry.Source.Wal.Assembler

-- crates/source-postgres/src/wal.rs
pub record StandbyStatus : Type 0 where
  pub write_lsn : PgLsn
  pub flush_lsn : PgLsn
  pub apply_lsn : PgLsn
  pub reply_requested : Bool

-- The errors by their cause: those of the source and of the transport, and those of
-- `validate_acknowledgement`.
pub data PgOutputError : Type 0 where
  source_failed : SourceError → PgOutputError
  send_failed : SourceError → PgOutputError
  foreign_position : ℤ → PgOutputError
  position_regressed : PgLsn → PgLsn → PgOutputError
  not_emitted : PgLsn → PgOutputError

-- `send_results` holds how the next status messages fare; one that is not listed succeeds.
pub record PgOutputTransactionSource : Type 0 where
  pub send_results : List (SourceResult (Unit {0}))
  pub statuses : List StandbyStatus
  pub assembler : TransactionAssembler
  pub durable_applied_lsn : PgLsn
  pub delivered_commits : List PgLsn

unfoldable pub from_transport :
    List (SourceResult (Unit {0})) → TransactionAssembler → PgLsn → PgOutputTransactionSource
from_transport send_results assembler durable_applied_lsn = record {
  send_results = send_results;
  statuses = [];
  assembler = assembler;
  durable_applied_lsn = durable_applied_lsn;
  delivered_commits = [];
}

abbrev pub PgOutputResult : Type 0 → Type 0
PgOutputResult A = Result PgOutputError A

unfoldable pub durable_status : PgLsn → StandbyStatus
durable_status lsn = record {
  write_lsn = lsn;
  flush_lsn = lsn;
  apply_lsn = lsn;
  reply_requested = false;
}

unfoldable pub send_result : List (SourceResult (Unit {0})) → PgOutputResult (Unit {0})
send_result [] = ok tt
send_result (ok tt ∷ rs) = ok tt
send_result (err e ∷ rs) = err (send_failed e)

unfoldable pub later_results : List (SourceResult (Unit {0})) → List (SourceResult (Unit {0}))
later_results [] = []
later_results (r ∷ rs) = rs

unfoldable pub send_durable_status :
    PgOutputTransactionSource → PgOutputResult (Unit {0}) × PgOutputTransactionSource
send_durable_status s = (
  send_result s.send_results,
  record s {
    send_results = later_results s.send_results;
    statuses = s.statuses ++ durable_status s.durable_applied_lsn ∷ [];
  },
)

unfoldable pub is_foreign : SourceNodeIdentity → SourcePosition → Bool
is_foreign identity position =
    not (is_yes (ℤ_discrete position.node_id identity.node_id))
    || (not (position.system_identifier == identity.system_identifier)
        || not (position.timeline == identity.timeline))

unfoldable pub validate_acknowledgement :
    PgOutputTransactionSource → SourcePosition → PgOutputResult (Unit {0})
validate_acknowledgement s position =
    if is_foreign s.assembler.identity position
    then err (foreign_position s.assembler.identity.node_id)
    else if ltb position.lsn s.durable_applied_lsn
    then err (position_regressed s.durable_applied_lsn position.lsn)
    else if any (λ lsn. lsn == position.lsn) s.delivered_commits
    then ok tt
    else err (not_emitted position.lsn)

-- What one message of the stream does to `next_transaction`.
pub data Received : Type 0 where
  continues : Received
  emits : SourceTransaction → Received
  fails : PgOutputError → Received

unfoldable pub after_status :
    PgOutputResult (Unit {0}) × PgOutputTransactionSource → Received × PgOutputTransactionSource
after_status (ok tt, s) = (continues, s)
after_status (err e, s) = (fails e, s)

unfoldable pub on_event :
    PgOutputTransactionSource
    → SourceResult (Option AssembledEvent)
    → Received × PgOutputTransactionSource
on_event s (err e) = (fails (source_failed e), s)
on_event s (ok none) = (continues, s)
on_event s (ok (some (transaction c))) = (
  emits c.transaction,
  record s { delivered_commits = s.delivered_commits ++ c.transaction.final_position.lsn ∷ [] },
)
on_event s (ok (some (alive wal_end timestamp_micros reply_requested))) =
    if reply_requested then after_status (send_durable_status s) else (continues, s)

unfoldable pub on_message :
    PgOutputTransactionSource → SourceResult DecodedMessage → Received × PgOutputTransactionSource
on_message s (err e) = (fails (source_failed e), s)
on_message s (ok message) =
    on_event (record s { assembler = (Assembler.push s.assembler message).1 })
      (Assembler.push s.assembler message).0

unfoldable pub at_end : SourceResult (Unit {0}) → PgOutputResult (Option SourceTransaction)
at_end (ok tt) = ok none
at_end (err e) = err (source_failed e)

-- What `next_transaction` returns, and the source that it leaves.
abbrev pub Next : Type 0
Next = PgOutputResult (Option SourceTransaction) × PgOutputTransactionSource

-- The body of the loop; `rest` is what its next round returns.
unfoldable pub on_received : Received × PgOutputTransactionSource → Next → Next
on_received (continues, s) rest = rest
on_received (emits t, s) rest = (ok (some t), s)
on_received (fails e, s) rest = (err e, s)

-- The messages are those that the transport delivers before its stream ends.
unfoldable pub next_transaction :
    PgOutputTransactionSource → List (SourceResult DecodedMessage) → Next
next_transaction s [] = (at_end (Assembler.finish s.assembler), s)
next_transaction s (m ∷ ms) = on_received (on_message s m) (next_transaction (on_message s m).1 ms)

-- The `while` of `acknowledge`.
unfoldable pub pop_acknowledged : PgLsn → List PgLsn → List PgLsn
pop_acknowledged lsn [] = []
pop_acknowledged lsn (l ∷ ls) =
    let rest = pop_acknowledged lsn ls in if leb l lsn then rest else l ∷ ls

unfoldable pub on_valid :
    PgOutputTransactionSource
    → SourcePosition
    → PgOutputResult (Unit {0})
    → PgOutputResult (Unit {0}) × PgOutputTransactionSource
on_valid s position (err e) = (err e, s)
on_valid s position (ok tt) = send_durable_status (record s {
  durable_applied_lsn = position.lsn;
  delivered_commits = pop_acknowledged position.lsn s.delivered_commits;
})

unfoldable pub acknowledge :
    PgOutputTransactionSource
    → SourcePosition
    → PgOutputResult (Unit {0}) × PgOutputTransactionSource
acknowledge s position = on_valid s position (validate_acknowledgement s position)
