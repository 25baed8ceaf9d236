-- ===== src/Engine/PgOutput/Delivered.antt =====
-- The transactions that the source of crates/engine/src/adapters/pgoutput.rs has handed on, until they
-- are acknowledged.
use etl_server_cloudberry.Prelude.{
  ok_inj, some_inj, subst, ==_refl, is_yes-of, ◌≤◌, ◌<◌, ◌≡◌, refl, sym, ap, ◌⊎◌, inl, inr, true,
  false, Option, none, some, List, [], ◌∷◌, All, ℤ_discrete, Result-cases, ok, err, arith,
}
use etl_server_cloudberry.Core.Change.{PgLsn, SourcePosition, SourceTransaction}
use etl_server_cloudberry.Source.Wal.{
  CommittedTransaction, SourceResult, DecodedMessage, AssembledEvent, transaction, alive, position,
}
use etl_server_cloudberry.Source.Wal.Assembler
use etl_server_cloudberry.Source.Wal.Assembler.Emits.{end_lsn, push-IsClosed, IsClosed-position}
use etl_server_cloudberry.Engine.PgOutput.{
  Next, on_received, at_end, PgOutputTransactionSource, is_foreign, send_durable_status,
  validate_acknowledgement, after_status, on_event, on_message, next_transaction, on_valid,
  acknowledge, Received, continues, emits, fails,
}
use etl_server_cloudberry.Engine.PgOutput.Reports.{
  Request, next, ack, serve, serve_all, next_transaction-Holds,
}
use etl_server_cloudberry.Engine.PgOutput.Kept.{
  has_lsn, has_lsn-snoc, has_lsn-pop_acknowledged, IsAckable, IsAckable-validate, on_message-Keeps,
  next_transaction-Keeps,
}

position-native :
    (s : PgOutputTransactionSource) (lsn : PgLsn)
    → is_foreign s.assembler.identity (position s.assembler.identity lsn) ≡ false
unfolding is_foreign position
position-native s lsn =
    rw
      (
        is_yes-of (ℤ_discrete s.assembler.identity.node_id s.assembler.identity.node_id) refl,
        ==_refl s.assembler.identity.system_identifier,
        ==_refl s.assembler.identity.timeline,
      )
      refl

after_status-emits :
    (r : _ × PgOutputTransactionSource) (t : SourceTransaction) → ¬ ((after_status r).0 ≡ emits t)
unfolding after_status
after_status-emits (ok tt, s) t h = cc
after_status-emits (err e, s) t h = cc

on_event-emits :
    (s : PgOutputTransactionSource) (r : SourceResult (Option AssembledEvent))
    (t : SourceTransaction)
    → (on_event s r).0 ≡ emits t
    → (c : CommittedTransaction) × (r ≡ ok (some (transaction c)))
      × (c.transaction ≡ t)
      × (has_lsn t.final_position.lsn (on_event s r).1.delivered_commits ≡ true)
unfolding on_event
on_event-emits s (err e) t h = absurd (cc)
on_event-emits s (ok none) t h = absurd (cc)
on_event-emits s (ok (some (transaction c))) t h =
    let same : c.transaction ≡ t = ap emitted h in
    (c, refl, same, rw (← same) (has_lsn-snoc c.transaction.final_position.lsn s.delivered_commits))
  where
    emitted : Received → SourceTransaction
    emitted (emits u) = u
    emitted r = c.transaction
on_event-emits s (ok (some (alive w x true))) t h = absurd (after_status-emits _ t h)
on_event-emits s (ok (some (alive w x false))) t h = absurd (cc)

-- A message that completes a transaction: it stands at the source's identity, and is queued.
on_message-emits :
    (s : PgOutputTransactionSource) (m : SourceResult DecodedMessage) (t : SourceTransaction)
    → (on_message s m).0 ≡ emits t
    → (is_foreign s.assembler.identity t.final_position ≡ false)
      × (has_lsn t.final_position.lsn (on_message s m).1.delivered_commits ≡ true)
unfolding on_message
on_message-emits s (err e) t h = absurd (cc)
on_message-emits s (ok message) t h =
    let (c, e, same, queued) = on_event-emits _ (Assembler.push s.assembler message).0 t h in
    let (p, closed) = push-IsClosed s.assembler message e in
    (
      rw (← same, IsClosed-position s.assembler _ message c p closed)
          (position-native s (end_lsn c)),
      queued,
    )

on_received-some :
    (r : Received × PgOutputTransactionSource) (rest : Next) (t : SourceTransaction)
    → (on_received r rest).0 ≡ ok (some t)
    → ((r.0 ≡ emits t) × (on_received r rest ≡ (ok (some t), r.1)))
      ⊎ ((rest.0 ≡ ok (some t)) × (on_received r rest ≡ rest))
unfolding on_received
on_received-some (continues, s) rest t h = inr (h, refl)
on_received-some (emits u, s) rest t h =
    let same : u ≡ t = some_inj (ok_inj h) in inl (ap emits same, ap (λ x. (ok (some x), s)) same)
on_received-some (fails e, s) rest t h = absurd (cc)

at_end-none : (r : _) (t : SourceTransaction) → ¬ (at_end r ≡ ok (some t))
unfolding at_end
at_end-none (ok tt) t h = cc
at_end-none (err e) t h = cc

next_transaction-emits :
    (ms : List (SourceResult DecodedMessage)) (s : PgOutputTransactionSource)
    (t : SourceTransaction)
    → (next_transaction s ms).0 ≡ ok (some t)
    → (is_foreign s.assembler.identity t.final_position ≡ false)
      × (has_lsn t.final_position.lsn (next_transaction s ms).1.delivered_commits ≡ true)
unfolding next_transaction
next_transaction-emits [] s t h = absurd (at_end-none _ t h)
next_transaction-emits (m ∷ ms) s t h = elim (on_received-some (on_message s m) _ t h) [
  | inl (e, same) ↦ rw same (on_message-emits s m t e)
  | inr (e, same) ↦
      let (n, k) = next_transaction-emits ms (on_message s m).1 t e in
      (
        subst (λ i. is_foreign i t.final_position ≡ false) (on_message-Keeps s m).identity n,
        rw same k,
      )
]

-- A request that acknowledges nothing at the position or beyond.
abbrev pub IsBelow : PgLsn → Request → Type 0
IsBelow lsn (next messages) = Unit {0}
IsBelow lsn (ack p) = p.lsn < lsn

acknowledge-IsAckable :
    (s : PgOutputTransactionSource) (p q : SourcePosition)
    → q.lsn < p.lsn
    → IsAckable s p
    → IsAckable (acknowledge s q).1 p
unfolding acknowledge on_valid send_durable_status
acknowledge-IsAckable s p q below h = elim (Result-cases (validate_acknowledgement s q)) [
  | inl (tt, e) ↦ rw e (record {
    native = h.native;
    ahead = omega arith;
    handed_on = has_lsn-pop_acknowledged p.lsn q.lsn s.delivered_commits below h.handed_on;
  })
  | inr (f, e) ↦ rw e h
]

serve-IsAckable :
    (s : PgOutputTransactionSource) (p : SourcePosition) (r : Request)
    → IsBelow p.lsn r
    → IsAckable s p
    → IsAckable (serve s r) p
serve-IsAckable s p (next messages) below h =
    let k = next_transaction-Keeps messages s in
    record {
      native = subst (λ i. is_foreign i p ≡ false) (sym k.identity) h.native;
      ahead = subst (λ l. l ≤ p.lsn) (sym (next_transaction-Holds messages s).durable) h.ahead;
      handed_on = k.handed_on p.lsn h.handed_on;
    }
serve-IsAckable s p (ack q) below h = acknowledge-IsAckable s p q below h

serve_all-IsAckable :
    (rs : List Request) (s : PgOutputTransactionSource) (p : SourcePosition)
    → All (IsBelow p.lsn) rs
    → IsAckable s p
    → IsAckable (serve_all s rs) p
unfolding serve_all
serve_all-IsAckable [] s p below h = h
serve_all-IsAckable (r ∷ rs) s p below h =
    serve_all-IsAckable rs (serve s r) p below.1 (serve-IsAckable s p r below.0 h)

-- A transaction that the source has handed on, beyond its durable position, can be acknowledged at
-- its final position, now or after any further requests that acknowledge only positions before it.
pub handed_on-acknowledgeable :
    (s : PgOutputTransactionSource) (ms : List (SourceResult DecodedMessage))
    (t : SourceTransaction) (rs : List Request)
    → (next_transaction s ms).0 ≡ ok (some t)
    → s.durable_applied_lsn ≤ t.final_position.lsn
    → All (IsBelow t.final_position.lsn) rs
    → validate_acknowledgement (serve_all (next_transaction s ms).1 rs) t.final_position ≡ ok tt
handed_on-acknowledgeable s ms t rs e ahead below =
    let (n, k) = next_transaction-emits ms s t e in
    let kept = (next_transaction-Keeps ms s).identity in
    IsAckable-validate _ t.final_position (
      serve_all-IsAckable rs (next_transaction s ms).1 t.final_position below (record {
        native = subst (λ i. is_foreign i t.final_position ≡ false) (sym kept) n;
        ahead =
            subst (λ l. l ≤ t.final_position.lsn) (sym (next_transaction-Holds ms s).durable) ahead;
        handed_on = k;
      }))
