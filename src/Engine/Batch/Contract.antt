-- ===== src/Engine/Batch/Contract.antt =====
-- What `push`, `flush` and `final_transaction` promise to their callers.
use etl_server_cloudberry.Prelude.{
  ℕ, ℤ, ◌≤◌, ◌≡◌, ◌≢◌, refl, sym, subst, ◌↔◌, inl, inr, Option, none, some, List, [], ◌∷◌, ◌++◌,
  last?, last?-eq_none, All, Result, ok, err, Option-cases, Bool-cases, arith,
}
use etl_server_cloudberry.Core.Change.{SourceTransaction}
use etl_server_cloudberry.Engine.Batch.{
  BatchLimits, BatchError, TransactionBatch, Batcher, validate_order, take_pending, must_flush,
  append, accept, push, flush, final_transaction,
}
use etl_server_cloudberry.Engine.Batch.Order.{commit_lsn, All-le-last, IsRun-nil}
use etl_server_cloudberry.Engine.Batch.Bounds.{
  IsValid, IsBatch, EachIsBatch, emitted, Follows, batcher, append-IsValid, append-IsValid_empty,
  take_pending-IsBatch, must_flush-nonempty, validate_order-eq_none, validate_order-of_Follows,
}

-- What `push` does with a transaction: an error changes nothing; otherwise the batcher stays valid,
-- what it emits is a batch, and the emitted and the pending transactions are the old pending ones
-- followed by the new one.
abbrev pub Accounts :
    Batcher → SourceTransaction → Result BatchError (Option TransactionBatch) × Batcher → Type 0
Accounts b t (err e, b') = b' ≡ b
Accounts b t (ok full, b') =
    IsValid b'
    × EachIsBatch b.limits full
    × (emitted full ++ b'.pending ≡ b.pending ++ t ∷ [])
    × (b'.limits ≡ b.limits)

accept-Accounts :
    (b : Batcher) (t : SourceTransaction)
    → IsValid b
    → Follows (last? b.pending) t
    → Accounts b t (accept b t)
unfolding accept append take_pending
accept-Accounts b t v f = elim (Bool-cases (must_flush b t)) [
  | inl e ↦ rw e (
    unfold append in append-IsValid_empty b.limits t none v.room,
    unfold take_pending in
        take_pending-IsBatch b.pending b.limits b.pending_rows b.pending_bytes b.node_identity v
          (must_flush-nonempty b t e),
    refl,
    refl,
  )
  | inr e ↦ rw e (
    append-IsValid b.pending b.limits b.pending_rows b.pending_bytes b.node_identity t v f e,
    tt,
    refl,
    refl,
  )
]

pub push-eq-accept :
    (b : Batcher) (t : SourceTransaction) → validate_order b t ≡ none → push b t ≡ accept b t
unfolding push
push-eq-accept b t e = rw (e, push) refl

push-eq-err :
    (b : Batcher) (t : SourceTransaction) {x : BatchError}
    → validate_order b t ≡ some x
    → push b t ≡ (err x, b)
unfolding push
push-eq-err b t e = rw (e, push) refl

-- On a valid batcher a push that fails changes nothing. One that succeeds leaves a valid batcher
-- with the same limits, emits nothing or a batch, and neither loses, repeats nor reorders a
-- transaction. A batch is not empty, comes from one node in ascending commit order, has a generation
-- barrier in its first transaction at most, states the sums of its row counts and byte estimates, and
-- these are within the limits, unless it is one transaction alone, which may be larger.
pub push-Accounts : (b : Batcher) (t : SourceTransaction) → IsValid b → Accounts b t (push b t)
push-Accounts b t v = elim (Option-cases (validate_order b t)) [
  | inl e ↦
      subst (Accounts b t) (sym (push-eq-accept b t e))
        (accept-Accounts b t v (validate_order-eq_none b t v e))
  | inr (x, e) ↦ subst (Accounts b t) (sym (push-eq-err b t e)) refl
]

accept-ne-err : (b : Batcher) (t : SourceTransaction) {x : BatchError} → (accept b t).0 ≢ err x
unfolding accept
accept-ne-err b t h = ground arith

-- A push is refused exactly when the transaction does not follow the pending ones: it comes from
-- another node or system, or its commit position moves backwards.
pub push_refuses_iff :
    (b : Batcher) (t : SourceTransaction)
    → IsValid b
    → ((e : BatchError) × ((push b t).0 ≡ err e)) ↔ (¬ Follows (last? b.pending) t)
push_refuses_iff b t v = (
  λ r f. accept-ne-err b t (rw (push-eq-accept b t (validate_order-of_Follows b t v f)) at (r.1)),
  λ h. elim (Option-cases (validate_order b t)) [
    | inl e ↦ absurd (h (validate_order-eq_none b t v e))
    | inr (x, e) ↦ (x, rw (push-eq-err b t e) refl)
  ],
)

-- What a flush does.
abbrev pub Drains : Batcher → Option TransactionBatch × Batcher → Type 0
Drains b (full, b') =
    IsValid b' × (b'.pending ≡ []) × EachIsBatch b.limits full × (emitted full ≡ b.pending)

flush_cases :
    (ts : List SourceTransaction) (l : BatchLimits) (rows bytes : ℕ) (fixed : Option (ℤ × ℕ))
    → IsValid (batcher l ts rows bytes fixed)
    → Drains (batcher l ts rows bytes fixed) (flush (batcher l ts rows bytes fixed))
unfolding flush take_pending
flush_cases [] l rows bytes fixed v = (v, refl, tt, refl)
flush_cases (t ∷ ts) l rows bytes fixed v = (
  record { room = v.room; run = IsRun-nil l; node = refl },
  refl,
  take_pending-IsBatch (t ∷ ts) l rows bytes fixed v (λ e. cc),
  refl,
)

-- Flushing a valid batcher leaves it valid and empty, and emits the pending transactions as one
-- batch, if there are any.
pub flush-Drains : (b : Batcher) → IsValid b → Drains b (flush b)
flush-Drains b v = flush_cases b.pending b.limits b.pending_rows b.pending_bytes b.node_identity v

-- The final transaction of a batch exists, and no position of the batch is beyond its own.
pub final_transaction-IsBatch :
    (l : BatchLimits) (batch : TransactionBatch)
    → IsBatch l batch
    → (p : SourceTransaction) × (final_transaction batch ≡ some p)
      × All (λ u. commit_lsn u ≤ commit_lsn p) batch.transactions
unfolding final_transaction
final_transaction-IsBatch l batch v = elim (Option-cases (last? batch.transactions)) [
  | inl e ↦ absurd (v.nonempty (last?-eq_none batch.transactions e))
  | inr (p, e) ↦ (p, e, All-le-last batch.transactions p v.run.ascending e (omega arith))
]
