-- ===== src/Engine/Pipeline/Delivery.antt =====
-- One delivery of the loop of crates/engine/src/pipeline.rs, and what a log says of the target and
-- of the acknowledgements.
use etl_server_cloudberry.Prelude.{
  ◌≡◌, ◌≢◌, refl, sym, ap, ◌∙◌, ◌⊎◌, inl, inr, Option, none, some, List, [], ◌∷◌, ◌++◌,
}
use mathlib.Core.List.{append_assoc, append-nil}
use etl_server_cloudberry.Core.Change.{SourceTransaction, SourcePosition}
use etl_server_cloudberry.Engine.Batch.{BatchLimits, TransactionBatch, final_transaction}
use etl_server_cloudberry.Engine.Batch.Bounds.{IsBatch, EachIsBatch, emitted}
use etl_server_cloudberry.Engine.Batch.Contract.{final_transaction-IsBatch}
use etl_server_cloudberry.Engine.Pipeline.{
  Action, applied, acknowledged, Response, cancelled_before, cancelled_in_apply,
  cancelled_in_acknowledge, done, apply_failed, acknowledge_failed, Delivery, looping, panicked,
  acknowledge_final, apply_and_ack_or_cancel, deliver,
}

-- The transactions that reached the target, in the order of the commits there.
abbrev pub delivered : List Action → List SourceTransaction
delivered [] = []
delivered (applied b ∷ log) = b.transactions ++ delivered log
delivered (acknowledged p ∷ log) = delivered log

-- The position of the last transaction of a batch.
abbrev pub EndsAt : TransactionBatch → SourcePosition → Type 0
EndsAt b p = (t : SourceTransaction) × (final_transaction b ≡ some t) × (t.final_position ≡ p)

-- Each acknowledgement stands directly behind the application of a batch that ends at its position.
-- The first argument is the batch applied just before the log.
abbrev pub IsAcked : Option TransactionBatch → List Action → Type 0
IsAcked before [] = Unit {0}
IsAcked before (applied b ∷ log) = IsAcked (some b) log
IsAcked none (acknowledged p ∷ log) = ⊥
IsAcked (some b) (acknowledged p ∷ log) = EndsAt b p × IsAcked none log

pub delivered-append : (xs ys : List Action) → delivered (xs ++ ys) ≡ delivered xs ++ delivered ys
delivered-append [] ys = refl
delivered-append (applied b ∷ xs) ys =
    ap (◌++◌ b.transactions) (delivered-append xs ys) ∙ sym (append_assoc b.transactions _ _)
delivered-append (acknowledged p ∷ xs) ys = delivered-append xs ys

pub IsAcked-append :
    (before : Option TransactionBatch) (xs ys : List Action)
    → IsAcked before xs
    → ((b : Option TransactionBatch) → IsAcked b ys)
    → IsAcked before (xs ++ ys)
IsAcked-append before [] ys h k = k before
IsAcked-append before (applied b ∷ xs) ys h k = IsAcked-append (some b) xs ys h k
IsAcked-append none (acknowledged p ∷ xs) ys h k = h
IsAcked-append (some b) (acknowledged p ∷ xs) ys h k = (h.0, IsAcked-append none xs ys h.1 k)

-- A delivery applies the batch whole or not at all, and whole where the loop goes on.
pub record IsDelivery (full : Option TransactionBatch) (d : Delivery) : Type 0 where
  pub all_or_none : (delivered d.0 ≡ []) ⊎ (delivered d.0 ≡ emitted full)
  pub all : d.1 ≡ looping → delivered d.0 ≡ emitted full
  pub acked : (b : Option TransactionBatch) → IsAcked b d.0
  pub sound : d.1 ≢ panicked

acknowledge_final-IsDelivery :
    (b : TransactionBatch) (t : SourceTransaction)
    → final_transaction b ≡ some t
    → IsDelivery (some b) (acknowledge_final b (some t))
unfolding acknowledge_final
acknowledge_final-IsDelivery b t e = record {
  all_or_none = inr (append-nil b.transactions);
  all = λ h. append-nil b.transactions;
  acked = λ before. ((t, e, refl), tt);
  sound = λ h. cc;
}

apply-IsDelivery :
    (l : BatchLimits) (b : TransactionBatch) (r : Response)
    → IsBatch l b
    → IsDelivery (some b) (apply_and_ack_or_cancel b r)
unfolding apply_and_ack_or_cancel
apply-IsDelivery l b cancelled_before v = record {
  all_or_none = inl refl;
  all = λ h. absurd (cc);
  acked = λ x. tt;
  sound = λ h. cc;
}
apply-IsDelivery l b cancelled_in_apply v = record {
  all_or_none = inl refl;
  all = λ h. absurd (cc);
  acked = λ x. tt;
  sound = λ h. cc;
}
apply-IsDelivery l b cancelled_in_acknowledge v = record {
  all_or_none = inr (append-nil b.transactions);
  all = λ h. absurd (cc);
  acked = λ x. tt;
  sound = λ h. cc;
}
apply-IsDelivery l b done v =
    let (t, e, below) = final_transaction-IsBatch l b v in rw e (acknowledge_final-IsDelivery b t e)
apply-IsDelivery l b (apply_failed e) v = record {
  all_or_none = inl refl;
  all = λ h. absurd (cc);
  acked = λ x. tt;
  sound = λ h. cc;
}
apply-IsDelivery l b (acknowledge_failed e) v = record {
  all_or_none = inr (append-nil b.transactions);
  all = λ h. absurd (cc);
  acked = λ x. tt;
  sound = λ h. cc;
}

pub deliver-IsDelivery :
    (l : BatchLimits) (full : Option TransactionBatch) (r : Response)
    → EachIsBatch l full
    → IsDelivery full (deliver full r)
unfolding deliver
deliver-IsDelivery l none r v = record {
  all_or_none = inl refl;
  all = λ h. refl;
  acked = λ x. tt;
  sound = λ h. cc;
}
deliver-IsDelivery l (some b) r v = apply-IsDelivery l b r v

-- A delivery that succeeds lets the loop go on.
pub deliver_done :
    (l : BatchLimits) (full : Option TransactionBatch)
    → EachIsBatch l full
    → (deliver full done).1 ≡ looping
unfolding deliver apply_and_ack_or_cancel acknowledge_final
deliver_done l none v = refl
deliver_done l (some b) v = let (t, e, below) = final_transaction-IsBatch l b v in rw e refl
