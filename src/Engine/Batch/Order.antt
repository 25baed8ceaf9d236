-- ===== src/Engine/Batch/Order.antt =====
-- Runs of transactions (crates/engine/src/batch.rs): their node, positions, totals, limits and
-- generation barriers.
use etl_server_cloudberry.Prelude.{
  ℕ, ℤ, ◌+◌, ◌≤◌, ◌<◌, min, ◌≡◌, refl, ◌∙◌, ◌⊎◌, inl, inr, false, some, List, [], ◌∷◌, ◌++◌, length,
  last?, any, All, All-append, length-append, u64_max, saturating_add, arith,
}
use etl_server_cloudberry.Core.Change.{SourceTransaction}
use etl_server_cloudberry.Engine.Batch.{
  BatchLimits, transaction_row_count, transaction_estimated_bytes, has_barrier,
}

abbrev pub commit_lsn : SourceTransaction → ℕ
commit_lsn t = t.final_position.lsn

abbrev pub identity : SourceTransaction → ℤ × ℕ
identity t = (t.final_position.node_id, t.final_position.system_identifier)

abbrev pub IsAscending : List SourceTransaction → Type 0
IsAscending [] = Unit {0}
IsAscending (t ∷ ts) = All (λ u. commit_lsn t ≤ commit_lsn u) ts × IsAscending ts

abbrev pub IsOneNode : List SourceTransaction → Type 0
IsOneNode [] = Unit {0}
IsOneNode (t ∷ ts) = All (λ u. identity u ≡ identity t) ts

abbrev pub IsBarrierFirst : List SourceTransaction → Type 0
IsBarrierFirst [] = Unit {0}
IsBarrierFirst (t ∷ ts) = any has_barrier ts ≡ false

abbrev pub total : (SourceTransaction → ℕ) → List SourceTransaction → ℕ
total f [] = 0
total f (t ∷ ts) = f t + total f ts

pub record IsRun (l : BatchLimits) (ts : List SourceTransaction) (rows bytes : ℕ) : Type 0 where
  pub ascending : IsAscending ts
  pub one_node : IsOneNode ts
  pub barrier_first : IsBarrierFirst ts
  pub row_total : rows ≡ min (total transaction_row_count ts) u64_max
  pub byte_total : bytes ≡ min (total transaction_estimated_bytes ts) u64_max
  pub counted : length ts ≤ l.max_rows
  pub within : (length ts ≤ 1) ⊎ ((rows ≤ l.max_rows) × (bytes ≤ l.max_bytes))

total-append :
    (f : SourceTransaction → ℕ) (ts : List SourceTransaction) (t : SourceTransaction)
    → total f (ts ++ t ∷ []) ≡ total f ts + f t
total-append f [] t = omega arith
total-append f (u ∷ ts) t = omega (arith, total-append f ts t)

saturating_total :
    (f : SourceTransaction → ℕ) (ts : List SourceTransaction) (t : SourceTransaction) (n : ℕ)
    → n ≡ min (total f ts) u64_max
    → saturating_add n (f t) ≡ min (total f (ts ++ t ∷ [])) u64_max
unfolding saturating_add
saturating_total f ts t n h = omega (arith, total-append f ts t)

pub All-le-last :
    (ts : List SourceTransaction) {p : SourceTransaction} (t : SourceTransaction)
    → IsAscending ts
    → last? ts ≡ some p
    → commit_lsn p ≤ commit_lsn t
    → All (λ u. commit_lsn u ≤ commit_lsn t) ts
All-le-last [] t h e k = tt
All-le-last (u ∷ []) {p} t h e k = (ground arith, tt)
All-le-last (u ∷ v ∷ ts) t h e k = let rest = All-le-last (v ∷ ts) t h.1 e k in (omega arith, rest)

IsAscending-snoc :
    (ts : List SourceTransaction) (t : SourceTransaction)
    → IsAscending ts
    → All (λ u. commit_lsn u ≤ commit_lsn t) ts
    → IsAscending (ts ++ t ∷ [])
IsAscending-snoc [] t h k = (tt, tt)
IsAscending-snoc (u ∷ ts) t h k =
    (All-append _ ts (t ∷ []) h.0 (k.0, tt), IsAscending-snoc ts t h.1 k.1)

identity-last :
    (u : SourceTransaction) (ts : List SourceTransaction) {p : SourceTransaction}
    → All (λ v. identity v ≡ identity u) ts
    → last? (u ∷ ts) ≡ some p
    → identity p ≡ identity u
identity-last u [] h e = cc
identity-last u (v ∷ []) h e = ground arith
identity-last u (v ∷ w ∷ ts) h e = identity-last u (w ∷ ts) h.1 e

any-snoc :
    (ts : List SourceTransaction) (t : SourceTransaction)
    → any has_barrier ts ≡ false
    → has_barrier t ≡ false
    → any has_barrier (ts ++ t ∷ []) ≡ false
any-snoc [] t h k = rw k refl
any-snoc (u ∷ ts) t h k = ground (arith, any-snoc ts t)

pub IsRun-nil : (l : BatchLimits) → IsRun l [] 0 0
IsRun-nil l = record {
  ascending = tt;
  one_node = tt;
  barrier_first = tt;
  row_total = omega arith;
  byte_total = omega arith;
  counted = omega arith;
  within = inl (omega arith);
}

-- A transaction that starts a run needs room for one row only.
pub IsRun-one :
    (l : BatchLimits) (t : SourceTransaction)
    → 0 < l.max_rows
    → IsRun l
        (t ∷ [])
        (saturating_add 0 (transaction_row_count t))
        (saturating_add 0 (transaction_estimated_bytes t))
IsRun-one l t h = record {
  ascending = (tt, tt);
  one_node = tt;
  barrier_first = refl;
  row_total = saturating_total transaction_row_count [] t 0 (omega arith);
  byte_total = saturating_total transaction_estimated_bytes [] t 0 (omega arith);
  counted = omega arith;
  within = inl (omega arith);
}

-- A transaction that passes the order checks and does not force a flush extends the run.
pub IsRun-snoc :
    (l : BatchLimits) (u : SourceTransaction) (ts : List SourceTransaction) (rows bytes : ℕ)
    (t p : SourceTransaction)
    → IsRun l (u ∷ ts) rows bytes
    → last? (u ∷ ts) ≡ some p
    → identity t ≡ identity p
    → commit_lsn p ≤ commit_lsn t
    → has_barrier t ≡ false
    → saturating_add rows (transaction_row_count t) ≤ l.max_rows
    → saturating_add bytes (transaction_estimated_bytes t) ≤ l.max_bytes
    → length (u ∷ ts) < l.max_rows
    → IsRun l
        ((u ∷ ts) ++ t ∷ [])
        (saturating_add rows (transaction_row_count t))
        (saturating_add bytes (transaction_estimated_bytes t))
IsRun-snoc l u ts rows bytes t p v e same le plain fits small room = record {
  ascending = IsAscending-snoc (u ∷ ts) t v.ascending (All-le-last (u ∷ ts) t v.ascending e le);
  one_node = All-append _ ts (t ∷ []) v.one_node (same ∙ identity-last u ts v.one_node e, tt);
  barrier_first = any-snoc ts t v.barrier_first plain;
  row_total = saturating_total transaction_row_count (u ∷ ts) t rows v.row_total;
  byte_total = saturating_total transaction_estimated_bytes (u ∷ ts) t bytes v.byte_total;
  counted = omega (arith, length-append ts (t ∷ []));
  within = inr (fits, small);
}
