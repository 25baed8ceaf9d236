-- ===== src/Engine/PgOutput/Reports.antt =====
-- What the source of crates/engine/src/adapters/pgoutput.rs reports to the server, over sequences of
-- requests of the engine.
use etl_server_cloudberry.Prelude.{
  subst, ◌⊎◌, ◌≤◌, ◌≡◌, refl, sym, ap, ◌∙◌, inl, inr, true, false, Option, none, some, List, [],
  ◌∷◌, ◌++◌, Result-cases, ok, err, arith,
}
use mathlib.Core.List.{append_assoc, append-nil}
use etl_server_cloudberry.Core.Change.{PgLsn, SourcePosition}
use etl_server_cloudberry.Source.Wal.{
  SourceResult, DecodedMessage, AssembledEvent, transaction, alive,
}
use etl_server_cloudberry.Source.Wal.Assembler
use etl_server_cloudberry.Engine.PgOutput.{
  Next, on_received, PgOutputTransactionSource, StandbyStatus, durable_status, send_durable_status,
  validate_acknowledgement, after_status, on_event, on_message, next_transaction, on_valid,
  acknowledge, Received, continues, emits, fails,
}

-- A status message that names one position as written, flushed and applied, and asks for no reply.
abbrev pub NamesOne : StandbyStatus → Type 0
NamesOne st =
    (st.flush_lsn ≡ st.write_lsn) × (st.apply_lsn ≡ st.write_lsn) × (st.reply_requested ≡ false)

-- The status messages name one position each, and these do not go back, from one durable position to
-- another.
abbrev pub Reports : PgLsn → List StandbyStatus → PgLsn → Type 0
Reports low [] high = low ≤ high
Reports low (st ∷ sts) high = NamesOne st × (low ≤ st.write_lsn) × Reports st.write_lsn sts high

Reports-weaken :
    (low mid high : PgLsn) (sts : List StandbyStatus)
    → low ≤ mid
    → Reports mid sts high
    → Reports low sts high
Reports-weaken low mid high [] h k = omega arith
Reports-weaken low mid high (st ∷ sts) h k = (k.0, omega arith, k.2)

Reports-append :
    (low mid high : PgLsn) (xs ys : List StandbyStatus)
    → Reports low xs mid
    → Reports mid ys high
    → Reports low (xs ++ ys) high
Reports-append low mid high [] ys h k = Reports-weaken low mid high ys h k
Reports-append low mid high (x ∷ xs) ys h k =
    (h.0, h.1, Reports-append x.write_lsn mid high xs ys h.2 k)

-- From `s` to `t` the source has sent reports of durable positions.
pub record Sends (s t : PgOutputTransactionSource) : Type 0 where
  pub sent : List StandbyStatus
  pub statuses : t.statuses ≡ s.statuses ++ sent
  pub reports : Reports s.durable_applied_lsn sent t.durable_applied_lsn

pub Sends-refl :
    (s t : PgOutputTransactionSource)
    → t.statuses ≡ s.statuses
    → t.durable_applied_lsn ≡ s.durable_applied_lsn
    → Sends s t
Sends-refl s t e f = record {
  sent = [];
  statuses = e ∙ sym (append-nil s.statuses);
  reports = omega arith;
}

pub Sends-trans : (s t u : PgOutputTransactionSource) → Sends s t → Sends t u → Sends s u
Sends-trans s t u h k = record {
  sent = h.sent ++ k.sent;
  statuses =
      k.statuses ∙ (ap (λ x. x ++ k.sent) h.statuses ∙ append_assoc s.statuses h.sent k.sent);
  reports =
      Reports-append s.durable_applied_lsn t.durable_applied_lsn u.durable_applied_lsn h.sent k.sent
        h.reports k.reports;
}

-- `t` is `s` after its durable position has moved on to the one that `t` reports.
send-Sends :
    (s t : PgOutputTransactionSource)
    → t.statuses ≡ s.statuses
    → s.durable_applied_lsn ≤ t.durable_applied_lsn
    → Sends s (send_durable_status t).1
unfolding send_durable_status durable_status
send-Sends s t e h = record {
  sent = durable_status t.durable_applied_lsn ∷ [];
  statuses = ap (λ x. x ++ durable_status t.durable_applied_lsn ∷ []) e;
  reports = ((refl, refl, refl), h, omega arith);
}

pub after_status-source : (r : _ × PgOutputTransactionSource) → (after_status r).1 ≡ r.1
unfolding after_status
after_status-source (ok tt, s) = refl
after_status-source (err e, s) = refl

-- The source before and after one message, or one call of `next_transaction`: what is reported is the
-- durable position that it had all along.
pub record Holds (s t : PgOutputTransactionSource) : Type 0 where
  pub durable : t.durable_applied_lsn ≡ s.durable_applied_lsn
  pub sends : Sends s t

on_event-Holds :
    (s : PgOutputTransactionSource) (r : SourceResult (Option AssembledEvent))
    → Holds s (on_event s r).1
unfolding on_event send_durable_status
on_event-Holds s (err e) = record { durable = refl; sends = Sends-refl s s refl refl }
on_event-Holds s (ok none) = record { durable = refl; sends = Sends-refl s s refl refl }
on_event-Holds s (ok (some (transaction c))) = record {
  durable = refl;
  sends = Sends-refl s _ refl refl;
}
on_event-Holds s (ok (some (alive w t true))) =
    rw (after_status-source (send_durable_status s))
      (record { durable = refl; sends = send-Sends s s refl (omega arith) })
on_event-Holds s (ok (some (alive w t false))) = record {
  durable = refl;
  sends = Sends-refl s s refl refl;
}

on_message-Holds :
    (s : PgOutputTransactionSource) (m : SourceResult DecodedMessage) → Holds s (on_message s m).1
unfolding on_message
on_message-Holds s (err e) = record { durable = refl; sends = Sends-refl s s refl refl }
on_message-Holds s (ok message) =
    let t : PgOutputTransactionSource = record s {
      assembler = (Assembler.push s.assembler message).1;
    } in
    let h = on_event-Holds t (Assembler.push s.assembler message).0 in
    record {
      durable = h.durable;
      sends = record {
        sent = h.sends.sent;
        statuses = h.sends.statuses;
        reports = h.sends.reports;
      };
    }

Holds-trans : (s t u : PgOutputTransactionSource) → Holds s t → Holds t u → Holds s u
Holds-trans s t u h k = record {
  durable = k.durable ∙ h.durable;
  sends = Sends-trans s t u h.sends k.sends;
}

-- A round of the loop ends with the source after the message, or with that of the later rounds.
pub on_received-source {κ} :
    (P : PgOutputTransactionSource → Type κ) (r : Received × PgOutputTransactionSource)
    (rest : Next)
    → P r.1
    → P rest.1
    → P (on_received r rest).1
unfolding on_received
on_received-source P (continues, s) rest h k = k
on_received-source P (emits t, s) rest h k = h
on_received-source P (fails e, s) rest h k = h

-- While the source reads on for the next transaction, whatever the stream delivers, its durable
-- position stays, and every status message that it sends, as for a keepalive of the server, reports
-- that position.
pub next_transaction-Holds :
    (ms : List (SourceResult DecodedMessage)) (s : PgOutputTransactionSource)
    → Holds s (next_transaction s ms).1
unfolding next_transaction
next_transaction-Holds [] s = record { durable = refl; sends = Sends-refl s s refl refl }
next_transaction-Holds (m ∷ ms) s =
    on_received-source (Holds s) (on_message s m) _ (on_message-Holds s m) (
      Holds-trans s (on_message s m).1 _ (on_message-Holds s m)
        (next_transaction-Holds ms (on_message s m).1))

valid_acknowledgement :
    (s : PgOutputTransactionSource) (position : SourcePosition)
    → validate_acknowledgement s position ≡ ok tt
    → s.durable_applied_lsn ≤ position.lsn
unfolding validate_acknowledgement
valid_acknowledgement s position h = ground arith

acknowledge-Sends :
    (s : PgOutputTransactionSource) (position : SourcePosition) → Sends s (acknowledge s position).1
unfolding acknowledge on_valid
acknowledge-Sends s position = elim (Result-cases (validate_acknowledgement s position)) [
  | inl (tt, e) ↦ rw e (send-Sends s _ refl (valid_acknowledgement s position e))
  | inr (f, e) ↦ rw e (Sends-refl s s refl refl)
]

-- What the engine asks of the source.
pub data Request : Type 0 where
  next : List (SourceResult DecodedMessage) → Request
  ack : SourcePosition → Request

abbrev pub serve : PgOutputTransactionSource → Request → PgOutputTransactionSource
serve s (next messages) = (next_transaction s messages).1
serve s (ack position) = (acknowledge s position).1

unfoldable pub serve_all : PgOutputTransactionSource → List Request → PgOutputTransactionSource
serve_all s [] = s
serve_all s (r ∷ rs) = serve_all (serve s r) rs

serve-Sends : (s : PgOutputTransactionSource) (r : Request) → Sends s (serve s r)
serve-Sends s (next messages) = (next_transaction-Holds messages s).sends
serve-Sends s (ack position) = acknowledge-Sends s position

-- The durable position that requests leave: the one at the start, or that of an acknowledgement among
-- them.
abbrev pub IsDurable : PgLsn → List Request → PgLsn → Type 0
IsDurable lsn [] final = final ≡ lsn
IsDurable lsn (next messages ∷ rs) final = IsDurable lsn rs final
IsDurable lsn (ack position ∷ rs) final = IsDurable lsn rs final ⊎ IsDurable position.lsn rs final

acknowledge-durable :
    (s : PgOutputTransactionSource) (position : SourcePosition)
    → ((acknowledge s position).1.durable_applied_lsn ≡ s.durable_applied_lsn)
      ⊎ ((acknowledge s position).1.durable_applied_lsn ≡ position.lsn)
unfolding acknowledge on_valid send_durable_status
acknowledge-durable s position = elim (Result-cases (validate_acknowledgement s position)) [
  | inl (tt, e) ↦ inr (rw e refl)
  | inr (f, e) ↦ inl (rw e refl)
]

serve_all-IsDurable :
    (rs : List Request) (s : PgOutputTransactionSource)
    → IsDurable s.durable_applied_lsn rs (serve_all s rs).durable_applied_lsn
unfolding serve_all
serve_all-IsDurable [] s = refl
serve_all-IsDurable (next messages ∷ rs) s =
    let final = (serve_all (serve s (next messages)) rs).durable_applied_lsn in
    subst (λ lsn. IsDurable lsn rs final) (next_transaction-Holds messages s).durable
      (serve_all-IsDurable rs (serve s (next messages)))
serve_all-IsDurable (ack position ∷ rs) s =
    let final = (serve_all (serve s (ack position)) rs).durable_applied_lsn in
    let rest = serve_all-IsDurable rs (serve s (ack position)) in
    elim (acknowledge-durable s position) [
      | inl e ↦ inl (subst (λ lsn. IsDurable lsn rs final) e rest)
      | inr e ↦ inr (subst (λ lsn. IsDurable lsn rs final) e rest)
    ]

serve_all-sent : (rs : List Request) (s : PgOutputTransactionSource) → Sends s (serve_all s rs)
unfolding serve_all
serve_all-sent [] s = Sends-refl s s refl refl
serve_all-sent (r ∷ rs) s =
    Sends-trans s (serve s r) _ (serve-Sends s r) (serve_all-sent rs (serve s r))

-- Whatever the engine asks and the stream delivers, each status message reports one position as
-- written, flushed and applied, and asks for no reply; these positions never go back, and never lie
-- beyond the durable position that the source holds in the end, which is the one at the start or that
-- of an acknowledgement.
pub serve_all-Sends :
    (rs : List Request) (s : PgOutputTransactionSource)
    → Sends s (serve_all s rs)
      × IsDurable s.durable_applied_lsn rs (serve_all s rs).durable_applied_lsn
serve_all-Sends rs s = (serve_all-sent rs s, serve_all-IsDurable rs s)
