-- ===== src/Engine/Ingest.antt =====
-- The assembler of crates/source-postgres/src/wal.rs in front of the batcher of
-- crates/engine/src/batch.rs.
use etl_server_cloudberry.Prelude.{
  ◌≤◌, ◌≡◌, refl, sym, subst, ap, ◌∙◌, inl, inr, Bool, true, false, Option, none, some, List, [],
  ◌∷◌, last?, last?-append, Option-cases, Bool-cases, Result, ok, err, arith,
}
use etl_server_cloudberry.Core.Change.{PgLsn, SourceTransaction}
use etl_server_cloudberry.Source.Wal.{
  DecodedMessage, CommittedTransaction, TransactionAssembler, SourceNodeIdentity, transaction,
  position, SourceResult, AssembledEvent,
}
use etl_server_cloudberry.Source.Wal.Assembler.{is_behind}
use etl_server_cloudberry.Source.Wal.Assembler
use etl_server_cloudberry.Source.Wal.Assembler.Emits.{
  end_lsn, push-IsClosed, IsClosed-position, IsAfter-is_behind, push-identity, push_steady,
  committed,
}
use etl_server_cloudberry.Engine.Batch.{
  BatchError, TransactionBatch, Batcher, must_flush, take_pending, append, accept, push,
}
use etl_server_cloudberry.Engine.Batch.Order.{commit_lsn, identity}
use etl_server_cloudberry.Engine.Batch.Bounds.{IsValid, Follows, validate_order-of_Follows}
use etl_server_cloudberry.Engine.Batch.Contract.{Accounts, push-Accounts, push-eq-accept}

abbrev prepend : Option CommittedTransaction → List SourceTransaction → List SourceTransaction
prepend none ts = ts
prepend (some c) ts = c.transaction ∷ ts

-- The transactions that the assembler emits over a sequence of events, refused events included.
unfoldable pub emits : TransactionAssembler → List DecodedMessage → List SourceTransaction
emits a [] = []
emits a (e ∷ es) =
    let rest = emits (Assembler.push a e).1 es in prepend (committed (Assembler.push a e).0) rest

-- Every transaction of the list is accepted in its turn.
unfoldable pub accepts : Batcher → List SourceTransaction → Bool
accepts b [] = true
accepts b (t ∷ ts) =
    let rest = accepts (push b t).1 ts in elim (push b t).0 [ ok full ↦ rest | err e ↦ false ]

-- The last pending transaction of the batcher is the last one that the assembler emitted.
abbrev Aligned : SourceNodeIdentity → Option PgLsn → Option SourceTransaction → Type 0
Aligned i lsn none = Unit {0}
Aligned i lsn (some p) =
    (identity p ≡ (i.node_id, i.system_identifier)) × (lsn ≡ some (commit_lsn p))

not_behind : (lsn last : PgLsn) → is_behind lsn (some last) ≡ false → last ≤ lsn
unfolding is_behind
not_behind lsn last h = ground arith

identity_at :
    (i : SourceNodeIdentity) (t : SourceTransaction) (lsn : PgLsn)
    → t.final_position ≡ position i lsn
    → identity t ≡ (i.node_id, i.system_identifier)
unfolding position
identity_at i t lsn h = ap (λ p. (p.node_id, p.system_identifier)) h

Aligned-Follows :
    (i : SourceNodeIdentity) (last : Option PgLsn) (p : Option SourceTransaction)
    (t : SourceTransaction)
    → Aligned i last p
    → identity t ≡ (i.node_id, i.system_identifier)
    → is_behind (commit_lsn t) last ≡ false
    → Follows p t
Aligned-Follows i last none t h e f = tt
Aligned-Follows i last (some p) t (same, at) e f = (
  e ∙ sym same,
  not_behind (commit_lsn t) (commit_lsn p) (subst (λ l. is_behind (commit_lsn t) l ≡ false) at f),
)

accept-last : (b : Batcher) (t : SourceTransaction) → last? (accept b t).1.pending ≡ some t
unfolding accept append take_pending
accept-last b t = elim (Bool-cases (must_flush b t)) [
  | inl e ↦ rw e refl
  | inr e ↦ rw e (last?-append b.pending t)
]

accept-ok :
    (b : Batcher) (t : SourceTransaction)
    → (full : Option TransactionBatch) × ((accept b t).0 ≡ ok full)
unfolding accept
accept-ok b t = elim (Bool-cases (must_flush b t)) [
  | inl e ↦ (some (take_pending b).0, rw e refl)
  | inr e ↦ (none, rw e refl)
]

Accounts-IsValid :
    (b : Batcher) (t : SourceTransaction)
    (o : Result BatchError (Option TransactionBatch) × Batcher)
    → Accounts b t o
    → IsValid b
    → IsValid o.1
Accounts-IsValid b t (ok full, b') a v = a.0
Accounts-IsValid b t (err e, b') a v = subst IsValid (sym a) v

-- A transaction that follows is accepted, and is then the last pending one.
push-Follows :
    (b : Batcher) (t : SourceTransaction)
    → IsValid b
    → Follows (last? b.pending) t
    → ((full : Option TransactionBatch) × ((push b t).0 ≡ ok full))
      × (last? (push b t).1.pending ≡ some t)
push-Follows b t v f =
    rw (push-eq-accept b t (validate_order-of_Follows b t v f)) (accept-ok b t, accept-last b t)

accepts-cons :
    (b : Batcher) (t : SourceTransaction) (ts : List SourceTransaction)
    {full : Option TransactionBatch}
    → (push b t).0 ≡ ok full
    → accepts b (t ∷ ts) ≡ accepts (push b t).1 ts
unfolding accepts
accepts-cons b t ts e = rw (e, accepts) refl

-- The assembler's part of a step: where it stands after an event that emits nothing.
quiet-Aligned :
    (a : TransactionAssembler) (e : DecodedMessage) (p : Option SourceTransaction)
    → committed (Assembler.push a e).0 ≡ none
    → Aligned a.identity a.last_commit_lsn p
    → Aligned (Assembler.push a e).1.identity (Assembler.push a e).1.last_commit_lsn p
quiet-Aligned a e p q h = rw (push-identity a e, push_steady a e q) h

committed-eq :
    (r : SourceResult (Option AssembledEvent)) {c : CommittedTransaction}
    → committed r ≡ some c
    → r ≡ ok (some (transaction c))
committed-eq r h = ground arith

accepts-Aligned :
    (es : List DecodedMessage) (a : TransactionAssembler) (b : Batcher)
    → IsValid b
    → Aligned a.identity a.last_commit_lsn (last? b.pending)
    → accepts b (emits a es) ≡ true
unfolding emits
accepts-Aligned [] a b v h = unfold accepts in refl
accepts-Aligned (e ∷ es) a b v h = elim (Option-cases (committed (Assembler.push a e).0)) [
  | inl q ↦
      rw q (accepts-Aligned es (Assembler.push a e).1 b v (quiet-Aligned a e (last? b.pending) q h))
  | inr (c, q) ↦
      let (p, closed) = push-IsClosed a e (committed-eq (Assembler.push a e).0 q) in
      let t = c.transaction in
      let same = identity_at a.identity t (end_lsn c) (IsClosed-position a _ e c p closed) in
      let f =
        Aligned-Follows a.identity a.last_commit_lsn (last? b.pending) t h same
          (IsAfter-is_behind a.last_commit_lsn (end_lsn c) closed.ordered) in
      let ((full, accepted), last) = push-Follows b t v f in
      rw (q, accepts-cons b t (emits (Assembler.push a e).1 es) accepted)
        (accepts-Aligned es (Assembler.push a e).1 (push b t).1
          (Accounts-IsValid b t (push b t) (push-Accounts b t v) v)
          (rw (last, push-identity a e) (same, closed.recorded)))
]

-- The transactions that one assembler emits are accepted by the batcher one after the other, from a
-- batcher without pending transactions: none is refused as coming from another node or system or
-- as moving backwards.
pub emits-accepts :
    (es : List DecodedMessage) (a : TransactionAssembler) (b : Batcher)
    → IsValid b
    → b.pending ≡ []
    → accepts b (emits a es) ≡ true
emits-accepts es a b v e = accepts-Aligned es a b v (rw e tt)
