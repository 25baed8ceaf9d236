-- ===== src/Engine/PgOutput/Kept.antt =====
-- What the source of crates/engine/src/adapters/pgoutput.rs keeps while it reads on: its identity and
-- its queue.
use etl_server_cloudberry.Prelude.{
  ◌≤◌, ◌<◌, ◌≡◌, refl, ◌∙◌, Bool, true, false, Option, none, some, List, [], ◌∷◌, ◌++◌, any, ok,
  err, arith, ◌==◌,
}
use etl_server_cloudberry.Core.Change.{PgLsn, SourcePosition}
use etl_server_cloudberry.Source.Wal.{
  SourceResult, DecodedMessage, AssembledEvent, transaction, alive,
}
use etl_server_cloudberry.Source.Wal.Assembler
use etl_server_cloudberry.Source.Wal.Assembler.Emits.{push-identity}
use etl_server_cloudberry.Engine.PgOutput.{
  PgOutputTransactionSource, is_foreign, send_durable_status, validate_acknowledgement,
  after_status, on_event, on_message, next_transaction, pop_acknowledged,
}
use etl_server_cloudberry.Engine.PgOutput.Reports.{on_received-source, after_status-source}

abbrev pub has_lsn : PgLsn → List PgLsn → Bool
has_lsn lsn ls = any (λ l. l == lsn) ls

has_lsn-append :
    (lsn : PgLsn) (xs ys : List PgLsn) → has_lsn lsn xs ≡ true → has_lsn lsn (xs ++ ys) ≡ true
has_lsn-append lsn [] ys h = absurd (cc)
has_lsn-append lsn (x ∷ xs) ys h = ground (arith, has_lsn-append lsn xs ys)

pub has_lsn-snoc : (lsn : PgLsn) (xs : List PgLsn) → has_lsn lsn (xs ++ lsn ∷ []) ≡ true
has_lsn-snoc lsn [] = ground arith
has_lsn-snoc lsn (x ∷ xs) = ground (arith, has_lsn-snoc lsn xs)

pub has_lsn-pop_acknowledged :
    (lsn p : PgLsn) (xs : List PgLsn)
    → p < lsn
    → has_lsn lsn xs ≡ true
    → has_lsn lsn (pop_acknowledged p xs) ≡ true
unfolding pop_acknowledged
has_lsn-pop_acknowledged lsn p [] h k = k
has_lsn-pop_acknowledged lsn p (x ∷ xs) h k = ground (arith, has_lsn-pop_acknowledged lsn p xs h)

-- What an acknowledgement of the position asks for.
pub record IsAckable (s : PgOutputTransactionSource) (p : SourcePosition) : Type 0 where
  pub native : is_foreign s.assembler.identity p ≡ false
  pub ahead : s.durable_applied_lsn ≤ p.lsn
  pub handed_on : has_lsn p.lsn s.delivered_commits ≡ true

pub IsAckable-validate :
    (s : PgOutputTransactionSource) (p : SourcePosition)
    → IsAckable s p
    → validate_acknowledgement s p ≡ ok tt
unfolding validate_acknowledgement
IsAckable-validate s p h =
    let x = h.native in let y = h.ahead in let z = h.handed_on in ground arith

-- From `s` to `t` the identity stays, and a commit that was handed on stays so.
pub record Keeps (s t : PgOutputTransactionSource) : Type 0 where
  pub identity : t.assembler.identity ≡ s.assembler.identity
  pub handed_on :
      (lsn : PgLsn)
      → has_lsn lsn s.delivered_commits ≡ true
      → has_lsn lsn t.delivered_commits ≡ true

Keeps-trans : (s t u : PgOutputTransactionSource) → Keeps s t → Keeps t u → Keeps s u
Keeps-trans s t u h k = record {
  identity = k.identity ∙ h.identity;
  handed_on = λ lsn e. k.handed_on lsn (h.handed_on lsn e);
}

on_event-Keeps :
    (s : PgOutputTransactionSource) (r : SourceResult (Option AssembledEvent))
    → Keeps s (on_event s r).1
unfolding on_event send_durable_status after_status
on_event-Keeps s (err e) = record { identity = refl; handed_on = λ lsn e. e }
on_event-Keeps s (ok none) = record { identity = refl; handed_on = λ lsn e. e }
on_event-Keeps s (ok (some (transaction c))) = record {
  identity = refl;
  handed_on = λ lsn e. has_lsn-append lsn s.delivered_commits _ e;
}
on_event-Keeps s (ok (some (alive w t true))) =
    rw (after_status-source (send_durable_status s))
      (record { identity = refl; handed_on = λ lsn e. e })
on_event-Keeps s (ok (some (alive w t false))) = record { identity = refl; handed_on = λ lsn e. e }

pub on_message-Keeps :
    (s : PgOutputTransactionSource) (m : SourceResult DecodedMessage) → Keeps s (on_message s m).1
unfolding on_message
on_message-Keeps s (err e) = record { identity = refl; handed_on = λ lsn e. e }
on_message-Keeps s (ok message) =
    let t : PgOutputTransactionSource = record s {
      assembler = (Assembler.push s.assembler message).1;
    } in
    let h = on_event-Keeps t (Assembler.push s.assembler message).0 in
    record { identity = h.identity ∙ push-identity s.assembler message; handed_on = h.handed_on }

pub next_transaction-Keeps :
    (ms : List (SourceResult DecodedMessage)) (s : PgOutputTransactionSource)
    → Keeps s (next_transaction s ms).1
unfolding next_transaction
next_transaction-Keeps [] s = record { identity = refl; handed_on = λ lsn e. e }
next_transaction-Keeps (m ∷ ms) s =
    on_received-source (Keeps s) (on_message s m) _ (on_message-Keeps s m) (
      Keeps-trans s (on_message s m).1 _ (on_message-Keeps s m)
        (next_transaction-Keeps ms (on_message s m).1))
