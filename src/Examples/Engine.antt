-- ===== src/Examples/Engine.antt =====
-- Instances of the theorems on crates/engine/src/batch.rs and crates/engine/src/pipeline.rs.
use etl_server_cloudberry.Prelude.{
  ◌≡◌, ◌≢◌, refl, ◌↔◌, ◌⊎◌, true, none, some, [], ◌∷◌, ◌++◌, ok, err, saturating_add, wrapping_add,
  ℤ_discrete, ℕ_discrete, u64_max, text,
}
use etl_server_cloudberry.Core.Change.{requires_generation_barrier}
use etl_server_cloudberry.Core.Pipeline.{running, failed, stopped, draft, snapshotting}
use etl_server_cloudberry.Engine.Batch.{
  BatchError, push, flush, final_transaction, take_pending, validate_order, accept, must_flush,
  append, check_identity, check_lsn, transaction_row_count, transaction_estimated_bytes,
}
use etl_server_cloudberry.Engine.Batch.Bounds.{Follows}
use etl_server_cloudberry.Engine.Batch.Contract.{
  Accounts, Drains, push-Accounts, push_refuses_iff, flush-Drains,
}
use etl_server_cloudberry.Engine.Pipeline.{
  looping, returned, panicked, done, end_of_stream, replicate, run, step, turn, on_push, proceed,
  deliver, on_flush, PipelineMachine, transition, invalid_transition, acknowledge_final,
  apply_and_ack_or_cancel,
}
use etl_server_cloudberry.Engine.Pipeline.Delivery.{delivered, IsAcked}
use etl_server_cloudberry.Engine.Pipeline.Stream.{Lacks, stream, replicate-Lacks}
use etl_server_cloudberry.Engine.Pipeline.Drain.{replicate_drains}
use etl_server_cloudberry.Engine.Pipeline.Machine.{
  ◌⟶◌, transition-⟶, request_all, is_idle, request_all-is_idle,
}
use etl_server_cloudberry.Examples.Data.{
  committed_at, idle_batcher, idle_batcher-IsValid, busy_batcher, busy_batcher-IsValid, cut_off,
  timed,
}

replicate-Lacks_example :
    let l = replicate idle_batcher cut_off in
    Lacks l.exit l (stream cut_off) × IsAcked none l.log × (l.exit ≢ panicked)
replicate-Lacks_example = replicate-Lacks idle_batcher cut_off idle_batcher-IsValid refl

timed_looping : (replicate idle_batcher timed).exit ≡ looping
unfolding replicate run step turn on_push on_flush proceed deliver push flush validate_order accept
    append must_flush take_pending check_identity check_lsn transaction_row_count
    transaction_estimated_bytes acknowledge_final apply_and_ack_or_cancel final_transaction
    saturating_add wrapping_add ℤ_discrete ℕ_discrete requires_generation_barrier u64_max text
timed_looping = refl

replicate_drains_example :
    let l = replicate idle_batcher (timed ++ end_of_stream done ∷ []) in
    (delivered l.log ≡ stream timed) × (l.exit ≡ returned)
replicate_drains_example =
    replicate_drains idle_batcher timed idle_batcher-IsValid refl timed_looping

push-Accounts_example :
    Accounts busy_batcher (committed_at 300) (push busy_batcher (committed_at 300))
push-Accounts_example = push-Accounts busy_batcher (committed_at 300) busy_batcher-IsValid

push_refuses_iff_example :
    ((e : BatchError) × ((push busy_batcher (committed_at 100)).0 ≡ err e))
    ↔ (¬ Follows (some (committed_at 200)) (committed_at 100))
push_refuses_iff_example = push_refuses_iff busy_batcher (committed_at 100) busy_batcher-IsValid

flush-Drains_example : Drains busy_batcher (flush busy_batcher)
flush-Drains_example = flush-Drains busy_batcher busy_batcher-IsValid

transition-⟶_example :
    let m : PipelineMachine = record { phase = draft } in
    ((draft ⟶ running) × (transition m running ≡ (ok tt, record { phase = running })))
    ⊎ ((¬ (draft ⟶ running)) × (transition m running ≡ (err (invalid_transition draft running), m)))
transition-⟶_example = transition-⟶ (record { phase = draft }) running

request_all-is_idle_example :
    is_idle (request_all (record { phase = failed }) (running ∷ snapshotting ∷ stopped ∷ [])).phase
    ≡ true
request_all-is_idle_example =
    request_all-is_idle (record { phase = failed }) (running ∷ snapshotting ∷ stopped ∷ []) refl
      (λ h. cc, (λ h. cc, (λ h. cc, tt)))
