-- ===== src/Engine/Pipeline/Drain.antt =====
-- The end of the stream in the loop of crates/engine/src/pipeline.rs.
use etl_server_cloudberry.Prelude.{◌≡◌, refl, ap, ◌∙◌, Option, List, [], ◌∷◌, ◌++◌}
use etl_server_cloudberry.Core.Change.{SourceTransaction}
use etl_server_cloudberry.Engine.Batch.{TransactionBatch, Batcher, flush}
use etl_server_cloudberry.Engine.Batch.Bounds.{IsValid}
use etl_server_cloudberry.Engine.Batch.Contract.{Drains, flush-Drains}
use etl_server_cloudberry.Engine.Pipeline.{
  done, looping, returned, deliver, Turn, end_of_stream, Loop, conclude, on_end, turn, step, run,
  start, replicate,
}
use etl_server_cloudberry.Engine.Pipeline.Delivery.{
  delivered, delivered-append, deliver-IsDelivery, deliver_done,
}
use etl_server_cloudberry.Engine.Pipeline.Stream.{stream, Tracks, run_start-Tracks}

run-append : (xs ys : List Turn) (l : Loop) → run l (xs ++ ys) ≡ run (run l xs) ys
unfolding run
run-append [] ys l = refl
run-append (x ∷ xs) ys l = run-append xs ys (step l.exit l x)

conclude_done :
    (l : Loop) (f : Option TransactionBatch × Batcher) (sofar : List SourceTransaction)
    → Drains l.batcher f
    → l.exit ≡ looping
    → Tracks l sofar
    → (delivered (on_end l done f).log ≡ sofar) × ((on_end l done f).exit ≡ returned)
unfolding on_end conclude
conclude_done l f sofar d e v =
    let w = deliver-IsDelivery l.batcher.limits f.0 done d.2 in
    let on = deliver_done l.batcher.limits f.0 d.2 in
    (
      delivered-append l.log (deliver f.0 done).0
          ∙ ap (λ x. delivered l.log ++ x) (w.all on ∙ d.3)
          ∙ v.whole e,
      rw on refl,
    )

-- From an empty valid batcher: when the stream ends while the loop runs and the last delivery
-- succeeds, the loop returns and the target has received the whole stream.
pub replicate_drains :
    (b : Batcher) (ts : List Turn)
    → IsValid b
    → b.pending ≡ []
    → (replicate b ts).exit ≡ looping
    → let l = replicate b (ts ++ end_of_stream done ∷ []) in
      (delivered l.log ≡ stream ts) × (l.exit ≡ returned)
unfolding replicate
replicate_drains b ts v e on =
    let l = run (start b) ts in
    let t : Tracks l (stream ts) = run_start-Tracks b ts v e in
    rw (run-append ts (end_of_stream done ∷ []) (start b)) (
      unfold run in
      rw on (
        unfold step turn in
        conclude_done l (flush l.batcher) (stream ts) (flush-Drains l.batcher t.valid) on t))
