-- ===== src/Source/Wal/Assembler/Emits.antt =====
-- What the assembler of crates/source-postgres/src/wal.rs emits.
use etl_server_cloudberry.Prelude.{
  sym, pos, ℕ, ℤ, ◌≤◌, ◌≡◌, refl, subst, inl, inr, Option-cases, false, Option, none, some, ok,
  arith,
}
use etl_server_cloudberry.Core.Change.{PgLsn, TransactionChange}
use etl_server_cloudberry.Source.Wal.{
  SourceResult, AssembledEvent, DecodedMessage, begin, commit, relation, keepalive, RelationEvent,
  PendingTransaction, CommittedTransaction, transaction, TransactionAssembler, position,
  to_transaction_change,
}
use etl_server_cloudberry.Source.Wal
use etl_server_cloudberry.Source.Wal.Assembler.{
  buffer, push_change, is_behind, push_begin, accept_relation, close, push_commit, push_relation,
  push_event, push, Outcome,
}
use etl_server_cloudberry.Source.Wal.Assembler.Branches.{push_commit-some}

-- The position that a transaction is acknowledged at.
abbrev pub end_lsn : CommittedTransaction → PgLsn
end_lsn c = c.transaction.final_position.lsn

-- A position that is not behind the last one.
abbrev pub IsAfter : Option PgLsn → PgLsn → Type 0
IsAfter none lsn = Unit {0}
IsAfter (some previous) lsn = previous ≤ lsn

-- The event is a commit, and with it the open transaction of `a` was closed as `c`, which left `a'`.
pub record IsClosed (a a' : TransactionAssembler) (event : DecodedMessage)
    (c : CommittedTransaction) (p : PendingTransaction) : Type 0 where
  pub is_commit : event ≡ commit c.commit_lsn (end_lsn c) c.transaction.commit_time (pos 0)
  pub was_open : a.pending ≡ some p
  pub changes : c.transaction.changes ≡ p.changes
  pub xid : c.transaction.xid ≡ p.xid
  pub node : c.transaction.final_position.node_id ≡ a.identity.node_id
  pub system : c.transaction.final_position.system_identifier ≡ a.identity.system_identifier
  pub timeline : c.transaction.final_position.timeline ≡ a.identity.timeline
  pub ordered : IsAfter a.last_commit_lsn (end_lsn c)
  pub commit_first : c.commit_lsn ≤ end_lsn c
  pub begin_first : p.begin_lsn ≤ end_lsn c
  pub closed : a'.pending ≡ none
  pub recorded : a'.last_commit_lsn ≡ some (end_lsn c)

pub IsClosed-position :
    (a a' : TransactionAssembler) (event : DecodedMessage) (c : CommittedTransaction)
    (p : PendingTransaction)
    → IsClosed a a' event c p
    → c.transaction.final_position ≡ position a.identity (end_lsn c)
unfolding position
IsClosed-position a a' event c p h = cc (h.node, h.system, h.timeline)

pub IsAfter-is_behind :
    (previous : Option PgLsn) (lsn : PgLsn) → IsAfter previous lsn → is_behind lsn previous ≡ false
unfolding is_behind
IsAfter-is_behind none lsn h = refl
IsAfter-is_behind (some previous) lsn h = ground arith

is_behind-IsAfter :
    (previous : Option PgLsn) (lsn : PgLsn) → is_behind lsn previous ≡ false → IsAfter previous lsn
unfolding is_behind
is_behind-IsAfter none lsn h = tt
is_behind-IsAfter (some previous) lsn h = ground arith

-- A transaction that is closed carries what its commit says.
close-committed :
    (a : TransactionAssembler) (p : PendingTransaction) (commit_lsn lsn : PgLsn) (timestamp : ℤ)
    {c : CommittedTransaction}
    → (close a p commit_lsn lsn timestamp).0 ≡ ok (some (transaction c))
    → c ≡ record {
      transaction = record {
        xid = p.xid;
        commit_time = timestamp;
        final_position = record {
          node_id = a.identity.node_id;
          system_identifier = a.identity.system_identifier;
          timeline = a.identity.timeline;
          lsn = lsn;
        };
        changes = p.changes;
      };
      commit_lsn = commit_lsn;
    }
unfolding close position
close-committed a p commit_lsn lsn timestamp h = ground arith

close-left :
    (a : TransactionAssembler) (p : PendingTransaction) (commit_lsn lsn : PgLsn) (timestamp : ℤ)
    {c : CommittedTransaction}
    → (close a p commit_lsn lsn timestamp).0 ≡ ok (some (transaction c))
    → (p.begin_lsn ≤ lsn)
      × ((close a p commit_lsn lsn timestamp).1.pending ≡ none)
      × ((close a p commit_lsn lsn timestamp).1.last_commit_lsn ≡ some lsn)
unfolding close
close-left a p commit_lsn lsn timestamp h = ground arith

close-IsClosed :
    (a : TransactionAssembler) (p : PendingTransaction) (commit_lsn lsn : PgLsn) (timestamp : ℤ)
    {c : CommittedTransaction}
    → a.pending ≡ some p
    → is_behind lsn a.last_commit_lsn ≡ false
    → commit_lsn ≤ lsn
    → (close a p commit_lsn lsn timestamp).0 ≡ ok (some (transaction c))
    → IsClosed a
        (close a p commit_lsn lsn timestamp).1
        (commit commit_lsn lsn timestamp (pos 0))
        c
        p
close-IsClosed a p commit_lsn lsn timestamp {c} e f g h =
    let (begun, left, last) = close-left a p commit_lsn lsn timestamp h in
    rw (close-committed a p commit_lsn lsn timestamp h) (record {
      is_commit = refl;
      was_open = e;
      changes = refl;
      xid = refl;
      node = refl;
      system = refl;
      timeline = refl;
      ordered = is_behind-IsAfter a.last_commit_lsn lsn f;
      commit_first = g;
      begin_first = begun;
      closed = left;
      recorded = last;
    })

push_commit-flags :
    (a : TransactionAssembler) (commit_lsn lsn : PgLsn) (timestamp flags : ℤ) {e : AssembledEvent}
    → (push_commit a commit_lsn lsn timestamp flags).0 ≡ ok (some e)
    → flags ≡ pos 0
unfolding push_commit
push_commit-flags a commit_lsn lsn timestamp flags h = ground arith

push_commit-IsClosed :
    (a : TransactionAssembler) (commit_lsn lsn : PgLsn) (timestamp flags : ℤ)
    {c : CommittedTransaction}
    → (push_commit a commit_lsn lsn timestamp flags).0 ≡ ok (some (transaction c))
    → (p : PendingTransaction) × IsClosed a
        (push_commit a commit_lsn lsn timestamp flags).1
        (commit commit_lsn lsn timestamp flags)
        c
        p
push_commit-IsClosed a commit_lsn lsn timestamp flags {c} h =
    let (p, open_at, e, after, le) = push_commit-some a commit_lsn lsn timestamp flags h in
    let closed =
      close-IsClosed a p commit_lsn lsn timestamp open_at after le
        (subst (λ (o : Outcome). o.0 ≡ ok (some (transaction c))) e h) in
    (
      p,
      rw e (
          subst
            (λ f.
              IsClosed a (close a p commit_lsn lsn timestamp).1 (commit commit_lsn lsn timestamp f)
                c p)
            (sym (push_commit-flags a commit_lsn lsn timestamp flags h)) closed),
    )

buffer-quiet :
    (a : TransactionAssembler) (p : PendingTransaction) (change : TransactionChange)
    {c : CommittedTransaction}
    → ¬ ((buffer a p change).0 ≡ ok (some (transaction c)))
unfolding buffer
buffer-quiet a p change h = ground arith

push_change-quiet :
    (a : TransactionAssembler) (change : TransactionChange) {c : CommittedTransaction}
    → ¬ ((push_change a change).0 ≡ ok (some (transaction c)))
unfolding push_change
push_change-quiet a change {c} h = elim (Option-cases a.pending) [
  | inl e ↦ ground arith
  | inr (p, e) ↦ ground (arith, buffer-quiet a p change {c = c})
]

push_begin-quiet :
    (a : TransactionAssembler) (lsn : PgLsn) (timestamp : ℤ) (xid : ℕ) {c : CommittedTransaction}
    → ¬ ((push_begin a lsn timestamp xid).0 ≡ ok (some (transaction c)))
unfolding push_begin
push_begin-quiet a lsn timestamp xid h = ground arith

-- Only a commit without flags emits a transaction. It carries the changes and the id of the transaction
-- that was open, the commit's time and position, stands at the node's identity and the commit's end
-- position, which is behind neither the last one nor the beginning, and leaves no transaction open.
pub push-IsClosed :
    (a : TransactionAssembler) (event : DecodedMessage) {c : CommittedTransaction}
    → (push a event).0 ≡ ok (some (transaction c))
    → (p : PendingTransaction) × IsClosed a (push a event).1 event c p
unfolding push push_relation push_event to_transaction_change
push-IsClosed a (keepalive w t r) h = absurd (cc)
push-IsClosed a (relation r) h = absurd (ground arith)
push-IsClosed a (Wal.type t) h = absurd (cc)
push-IsClosed a (begin f t x) h = absurd (push_begin-quiet a f t x h)
push-IsClosed a (commit c e t f) h = push_commit-IsClosed a c e t f h
push-IsClosed a (Wal.insert_row r g new) h = absurd (push_change-quiet a _ h)
push-IsClosed a (Wal.update_row r g old new) h = absurd (push_change-quiet a _ h)
push-IsClosed a (Wal.delete_row r g old) h = absurd (push_change-quiet a _ h)
push-IsClosed a (Wal.truncate_tables l o) h = absurd (push_change-quiet a _ h)
push-IsClosed a (Wal.ddl_message m) h = absurd (push_change-quiet a _ h)

abbrev pub committed : SourceResult (Option AssembledEvent) → Option CommittedTransaction
committed (ok (some (transaction c))) = some c
committed _ = none

pub push-identity :
    (a : TransactionAssembler) (event : DecodedMessage) → (push a event).1.identity ≡ a.identity
unfolding push push_relation push_event to_transaction_change push_begin accept_relation push_change
    buffer push_commit close
push-identity a (begin f t x) = ground arith
push-identity a _ = ground arith

-- An event that emits no transaction leaves the last commit position as it is.
pub push_steady :
    (a : TransactionAssembler) (event : DecodedMessage)
    → committed (push a event).0 ≡ none
    → (push a event).1.last_commit_lsn ≡ a.last_commit_lsn
unfolding push push_relation push_event to_transaction_change push_begin accept_relation push_change
    buffer push_commit close
push_steady a (begin f t x) h = ground arith
push_steady a _ h = ground arith
