-- ===== src/Engine/Batch/Bounds.antt =====
-- The batcher's invariant, and the order checks, the flush test and the append under it.
use etl_server_cloudberry.Prelude.{
  ℕ, ℤ, ◌≤◌, ◌<◌, ◌≡◌, ◌≢◌, refl, inl, inr, true, false, Option, none, some, List, [], ◌∷◌, length,
  last?, any, arith, ok, saturating_add, last?-append, last?-cons, subst, ap, Option-cases,
}
use etl_server_cloudberry.Core.Change.{SourceTransaction}
use etl_server_cloudberry.Engine.Batch.{
  BatchLimits, TransactionBatch, Batcher, new, transaction_row_count, transaction_estimated_bytes,
  has_barrier, check_identity, check_lsn, validate_order, take_pending, must_flush, append,
}
use etl_server_cloudberry.Engine.Batch.Order.{commit_lsn, identity, IsRun, IsRun-one, IsRun-snoc}

-- The identity that the pending transactions fix.
abbrev pub last_identity : List SourceTransaction → Option (ℤ × ℕ)
last_identity ts = elim (last? ts) [ none ↦ none | some p ↦ some (identity p) ]

pub record IsValid (b : Batcher) : Type 0 where
  pub room : 0 < b.limits.max_rows
  pub run : IsRun b.limits b.pending b.pending_rows b.pending_bytes
  pub node : b.node_identity ≡ last_identity b.pending

-- What a batch promises to its consumer.
pub record IsBatch (l : BatchLimits) (batch : TransactionBatch) : Type 0 where
  pub nonempty : batch.transactions ≢ []
  pub run : IsRun l batch.transactions batch.row_count batch.estimated_bytes
  pub barrier : batch.has_generation_barrier ≡ any has_barrier batch.transactions

abbrev pub EachIsBatch : BatchLimits → Option TransactionBatch → Type 0
EachIsBatch l none = Unit {0}
EachIsBatch l (some batch) = IsBatch l batch

abbrev pub emitted : Option TransactionBatch → List SourceTransaction
emitted none = []
emitted (some batch) = batch.transactions

pub new-IsValid : (l : BatchLimits) {b : Batcher} → new l ≡ ok b → IsValid b
unfolding new
new-IsValid l h = ground arith

-- The transaction continues the pending ones: same node, no earlier position.
abbrev pub Follows : Option SourceTransaction → SourceTransaction → Type 0
Follows none t = Unit {0}
Follows (some p) t = (identity t ≡ identity p) × (commit_lsn p ≤ commit_lsn t)

check_identity-eq_none :
    (p t : SourceTransaction)
    → check_identity (some (identity p)) t ≡ none
    → identity t ≡ identity p
unfolding check_identity
check_identity-eq_none p t h = ground arith

check_lsn-eq_none :
    (p t : SourceTransaction) → check_lsn (some p) t ≡ none → commit_lsn p ≤ commit_lsn t
unfolding check_lsn
check_lsn-eq_none p t h = ground arith

check_identity-of_eq :
    (p t : SourceTransaction)
    → identity t ≡ identity p
    → check_identity (some (identity p)) t ≡ none
unfolding check_identity
check_identity-of_eq p t h = ground (arith, ap (λ (x : ℤ × ℕ). x.0) h, ap (λ (x : ℤ × ℕ). x.1) h)

check_lsn-of_le :
    (p t : SourceTransaction) → commit_lsn p ≤ commit_lsn t → check_lsn (some p) t ≡ none
unfolding check_lsn
check_lsn-of_le p t h = ground arith

pub validate_order-of_Follows :
    (b : Batcher) (t : SourceTransaction)
    → IsValid b
    → Follows (last? b.pending) t
    → validate_order b t ≡ none
unfolding validate_order
validate_order-of_Follows b t v f = elim (Option-cases (last? b.pending)) [
  | inl e ↦ unfold check_identity check_lsn in ground (arith, v.node, e)
  | inr (p, e) ↦
      let g : Follows (some p) t = subst (λ o. Follows o t) e f in
      ground (arith, v.node, e, check_identity-of_eq p t g.0, check_lsn-of_le p t g.1)
]

pub validate_order-eq_none :
    (b : Batcher) (t : SourceTransaction)
    → IsValid b
    → validate_order b t ≡ none
    → Follows (last? b.pending) t
unfolding validate_order
validate_order-eq_none b t v h = elim (Option-cases (last? b.pending)) [
  | inl e ↦ rw e tt
  | inr (p, e) ↦ rw e (ground (arith, v.node, e, check_identity-eq_none p t, check_lsn-eq_none p t))
]

must_flush-eq_false :
    (b : Batcher) (t u : SourceTransaction) (ts : List SourceTransaction)
    → b.pending ≡ u ∷ ts
    → must_flush b t ≡ false
    → (has_barrier t ≡ false)
      × (saturating_add b.pending_rows (transaction_row_count t) ≤ b.limits.max_rows)
      × (saturating_add b.pending_bytes (transaction_estimated_bytes t) ≤ b.limits.max_bytes)
      × (length b.pending < b.limits.max_rows)
unfolding must_flush
must_flush-eq_false b t u ts e h = ground arith

-- A batcher by its fields, to split on the pending transactions.
abbrev pub batcher : BatchLimits → List SourceTransaction → ℕ → ℕ → Option (ℤ × ℕ) → Batcher
batcher l ts rows bytes fixed = record {
  limits = l;
  pending = ts;
  pending_rows = rows;
  pending_bytes = bytes;
  node_identity = fixed;
}

pub append-IsValid_empty :
    (l : BatchLimits) (t : SourceTransaction) (fixed : Option (ℤ × ℕ))
    → 0 < l.max_rows
    → IsValid (append t (batcher l [] 0 0 fixed))
unfolding append
append-IsValid_empty l t fixed h = record { room = h; run = IsRun-one l t h; node = refl }

append-IsValid_last :
    (l : BatchLimits) (u : SourceTransaction) (ts : List SourceTransaction) (rows bytes : ℕ)
    (fixed : Option (ℤ × ℕ)) (t : SourceTransaction)
    → IsValid (batcher l (u ∷ ts) rows bytes fixed)
    → Follows (last? (u ∷ ts)) t
    → must_flush (batcher l (u ∷ ts) rows bytes fixed) t ≡ false
    → IsValid (append t (batcher l (u ∷ ts) rows bytes fixed))
unfolding append
append-IsValid_last l u ts rows bytes fixed t v f m =
    let b = batcher l (u ∷ ts) rows bytes fixed in
    let bounds = must_flush-eq_false b t u ts refl m in
    elim (Option-cases (last? (u ∷ ts))) [
      | inl e ↦ absurd (last?-cons u ts e)
      | inr (p, e) ↦
          let g : Follows (some p) t = subst (λ o. Follows o t) e f in
          record {
            room = v.room;
            run =
                IsRun-snoc l u ts rows bytes t p v.run e g.0 g.1 bounds.0 bounds.1 bounds.2
                  bounds.3;
            node = rw (last?-append (u ∷ ts) t) refl;
          }
    ]

pub append-IsValid :
    (ts : List SourceTransaction) (l : BatchLimits) (rows bytes : ℕ) (fixed : Option (ℤ × ℕ))
    (t : SourceTransaction)
    → IsValid (batcher l ts rows bytes fixed)
    → Follows (last? ts) t
    → must_flush (batcher l ts rows bytes fixed) t ≡ false
    → IsValid (append t (batcher l ts rows bytes fixed))
append-IsValid [] l rows bytes fixed t v f m =
    let r : rows ≡ 0 = omega (arith, v.run.row_total) in
    let s : bytes ≡ 0 = omega (arith, v.run.byte_total) in
    rw (r, s) (append-IsValid_empty l t fixed v.room)
append-IsValid (u ∷ ts) l rows bytes fixed t v f m =
    append-IsValid_last l u ts rows bytes fixed t v f m

pub take_pending-IsBatch :
    (ts : List SourceTransaction) (l : BatchLimits) (rows bytes : ℕ) (fixed : Option (ℤ × ℕ))
    → IsValid (batcher l ts rows bytes fixed)
    → ts ≢ []
    → IsBatch l (take_pending (batcher l ts rows bytes fixed)).0
unfolding take_pending
take_pending-IsBatch ts l rows bytes fixed v h = record {
  nonempty = h;
  run = v.run;
  barrier = refl;
}

pub must_flush-nonempty :
    (b : Batcher) (t : SourceTransaction) → must_flush b t ≡ true → b.pending ≢ []
unfolding must_flush
must_flush-nonempty b t h e = ground arith
