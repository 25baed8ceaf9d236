-- ===== src/Source/Wal/Assembler/Content.antt =====
-- The content of an open transaction of the assembler (crates/source-postgres/src/wal.rs), and its
-- specification by the events that were accepted.
use etl_server_cloudberry.Prelude.{
  sym, Result-cases, ◌≡◌, refl, inl, inr, Bool-cases, true, Option, none, some, List, [], ◌∷◌, ◌++◌,
  ok, err, arith, ◌∙◌, subst, ap, saturating_add,
}
use etl_server_cloudberry.Core.Change.{TransactionChange}
use etl_server_cloudberry.Source.Wal.{
  SourceResult, AssembledEvent, RelationEvent, DecodedMessage, begin, commit, relation, keepalive,
  PendingTransaction, TransactionAssembler, to_transaction_change,
}
use etl_server_cloudberry.Source.Wal
use etl_server_cloudberry.Source.Wal.Assembler.{
  Outcome, transaction_change_bytes, is_current, repeats_ddl, buffer, push_change, accept_relation,
  push_relation, push_event, push,
}
use etl_server_cloudberry.Source.Wal.Assembler.Added.{
  collect_one, collect, is_inner, AllInner, AddsAll, AddsAll-collect,
}
use etl_server_cloudberry.Source.Wal.Assembler.Branches.{
  push_change_stale, push_change_twice, push_change-buffer,
}

-- The assembler after a run of events, if it accepts them all.
unfoldable pub absorb : TransactionAssembler → List DecodedMessage → Option TransactionAssembler
absorb a [] = some a
absorb a (e ∷ es) =
    let rest = absorb (push a e).1 es in elim (push a e).0 [ ok event ↦ rest | err x ↦ none ]

-- `p'` is `p` with other changes.
record Collects (a : TransactionAssembler) (p : PendingTransaction) (cs : List TransactionChange)
    (p' : PendingTransaction) : Type 0 where
  is_open : a.pending ≡ some p'
  changes : p'.changes ≡ cs
  xid : p'.xid ≡ p.xid
  begin_lsn : p'.begin_lsn ≡ p.begin_lsn
  begin_time : p'.begin_time ≡ p.begin_time

buffer-Collects :
    (a : TransactionAssembler) (p : PendingTransaction) (c : TransactionChange)
    {event : Option AssembledEvent}
    → (buffer a p c).0 ≡ ok event
    → (p' : PendingTransaction) × Collects (buffer a p c).1 p (p.changes ++ c ∷ []) p'
unfolding buffer
buffer-Collects a p c h = (
  record p {
    buffered_bytes = saturating_add p.buffered_bytes (transaction_change_bytes c);
    changes = p.changes ++ c ∷ [];
  },
  record {
    is_open = ground arith;
    changes = refl;
    xid = refl;
    begin_lsn = refl;
    begin_time = refl;
  },
)

push_change-Collects :
    (a : TransactionAssembler) (p : PendingTransaction) (c : TransactionChange)
    {event : Option AssembledEvent}
    → a.pending ≡ some p
    → (push_change a c).0 ≡ ok event
    → (p' : PendingTransaction) × Collects (push_change a c).1 p (collect_one p.changes (some c)) p'
push_change-Collects a p c {event} e h = elim (Bool-cases (is_current a c)) [
  | inr old ↦ absurd (ground (arith, push_change_stale a c p e old))
  | inl new ↦ elim (Bool-cases (repeats_ddl p.changes c)) [
    | inl twice ↦
        rw (push_change_twice a c p e new twice, twice)
          (
            p,
            record { is_open = e; changes = refl; xid = refl; begin_lsn = refl; begin_time = refl },
          )
    | inr once ↦
        let same = push_change-buffer a c p e new once in
        rw (same, once) (buffer-Collects a p c (subst (λ (o : Outcome). o.0 ≡ ok event) same h))
  ]
]

push_event-Collects :
    (a : TransactionAssembler) (p : PendingTransaction) (c : Option TransactionChange)
    {event : Option AssembledEvent}
    → a.pending ≡ some p
    → (push_event a c).0 ≡ ok event
    → (p' : PendingTransaction) × Collects (push_event a c).1 p (collect_one p.changes c) p'
unfolding push_event
push_event-Collects a p none e h =
    (p, record { is_open = e; changes = refl; xid = refl; begin_lsn = refl; begin_time = refl })
push_event-Collects a p (some c) e h = push_change-Collects a p c e h

accept_relation-pending :
    (a : TransactionAssembler) (r : RelationEvent) → (accept_relation a r).1.pending ≡ a.pending
unfolding accept_relation
accept_relation-pending a r = ground arith

push-Collects :
    (a : TransactionAssembler) (p : PendingTransaction) (e : DecodedMessage)
    {event : Option AssembledEvent}
    → a.pending ≡ some p
    → is_inner e ≡ true
    → (push a e).0 ≡ ok event
    → (p' : PendingTransaction) × Collects
        (push a e).1
        p
        (collect_one p.changes (to_transaction_change e))
        p'
unfolding push push_relation to_transaction_change
push-Collects a p (begin f t x) o i h = absurd (cc)
push-Collects a p (commit c e t f) o i h = absurd (cc)
push-Collects a p (relation r) o i h = (
  p,
  record {
    is_open = accept_relation-pending a r ∙ o;
    changes = refl;
    xid = refl;
    begin_lsn = refl;
    begin_time = refl;
  },
)
push-Collects a p (keepalive w t r) o i h =
    (p, record { is_open = o; changes = refl; xid = refl; begin_lsn = refl; begin_time = refl })
push-Collects a p (Wal.type t) o i h =
    (p, record { is_open = o; changes = refl; xid = refl; begin_lsn = refl; begin_time = refl })
push-Collects a p (Wal.insert_row r g new) o i h = push_event-Collects a p _ o h
push-Collects a p (Wal.update_row r g old new) o i h = push_event-Collects a p _ o h
push-Collects a p (Wal.delete_row r g old) o i h = push_event-Collects a p _ o h
push-Collects a p (Wal.truncate_tables l x) o i h = push_event-Collects a p _ o h
push-Collects a p (Wal.ddl_message m) o i h = push_event-Collects a p _ o h

absorb-Collects :
    (es : List DecodedMessage) (a : TransactionAssembler) (p : PendingTransaction)
    {a' : TransactionAssembler}
    → AllInner es
    → a.pending ≡ some p
    → absorb a es ≡ some a'
    → (p' : PendingTransaction) × Collects a' p (collect p.changes es) p'
unfolding absorb
absorb-Collects [] a p i o h = (
  p,
  record {
    is_open = ground arith;
    changes = refl;
    xid = refl;
    begin_lsn = refl;
    begin_time = refl;
  },
)
absorb-Collects (e ∷ es) a p {a'} i o h = elim (Result-cases (push a e).0) [
  | inr (x, f) ↦ absurd (ground arith)
  | inl (x, f) ↦
      let (q, g) = push-Collects a p e o i.0 f in
      let (q', g') = absorb-Collects es (push a e).1 q {a' = a'} i.1 g.is_open (ground arith) in
      (
        q',
        record {
          is_open = g'.is_open;
          changes = g'.changes ∙ ap (λ cs. collect cs es) g.changes;
          xid = g'.xid ∙ g.xid;
          begin_lsn = g'.begin_lsn ∙ g.begin_lsn;
          begin_time = g'.begin_time ∙ g.begin_time;
        },
      )
]

-- `p'` is open in `a`, and is `p` with what the events added to its changes.
pub record Grows (a : TransactionAssembler) (p : PendingTransaction) (es : List DecodedMessage)
    (p' : PendingTransaction) : Type 0 where
  pub is_open : a.pending ≡ some p'
  pub changes : AddsAll p.changes es p'.changes
  pub xid : p'.xid ≡ p.xid
  pub begin_lsn : p'.begin_lsn ≡ p.begin_lsn
  pub begin_time : p'.begin_time ≡ p.begin_time

-- While a transaction is open, events that are all accepted leave it open with its id, begin position
-- and begin time, and add to its changes, in order, the insert, update, delete, TRUNCATE or DDL of
-- each event; a DDL message that the transaction has already, and an event of another kind, add
-- nothing.
pub absorb-Grows :
    (es : List DecodedMessage) (a : TransactionAssembler) (p : PendingTransaction)
    {a' : TransactionAssembler}
    → AllInner es
    → a.pending ≡ some p
    → absorb a es ≡ some a'
    → (p' : PendingTransaction) × Grows a' p es p'
absorb-Grows es a p {a'} i o h =
    let (p', g) = absorb-Collects es a p {a' = a'} i o h in
    (
      p',
      record {
        is_open = g.is_open;
        changes = subst (AddsAll p.changes es) (sym g.changes) (AddsAll-collect es p.changes i);
        xid = g.xid;
        begin_lsn = g.begin_lsn;
        begin_time = g.begin_time;
      },
    )
