-- ===== src/Engine/Pipeline.antt =====
-- crates/engine/src/pipeline.rs: the phase machine and the replication loop. What the loop awaits
-- (the stream, the timer, the target, the acknowledgement, cancellation) is an explicit sequence of
-- turns; what it does to the outside is a log.
pub mod Machine
pub mod Delivery
pub mod Stream
pub mod Drain
use etl_server_cloudberry.Prelude.{
  ℕ, Bool, true, false, Option, none, some, List, [], ◌∷◌, ◌++◌, Text, is_empty, is_yes, ◌||◌,
  if◌then◌else◌, Result, ok, err,
}
use etl_server_cloudberry.Core.Change.{SourceTransaction, SourcePosition}
use etl_server_cloudberry.Core.Pipeline.{
  PipelinePhase, PipelinePhase-discrete, draft, validating, snapshotting, catching_up, running,
  paused, degraded, failed, stopped,
}
use etl_server_cloudberry.Engine.Batch.{
  BatchError, TransactionBatch, Batcher, push, flush, final_transaction,
}
use etl_server_cloudberry.Engine.Normalize.{NormalizeError}

pub data PipelineError : Type 0 where
  source : Text → PipelineError
  target : Text → PipelineError
  schema_barrier : Text → PipelineError
  normalize : NormalizeError → PipelineError
  acknowledge : Text → PipelineError
  batch : BatchError → PipelineError
  invalid_transition : PipelinePhase → PipelinePhase → PipelineError

pub record PipelineMachine : Type 0 where
  pub phase : PipelinePhase

abbrev pub default_machine : PipelineMachine
default_machine = record { phase = draft }

-- The pairs that `transition` lists.
unfoldable pub is_listed : PipelinePhase → PipelinePhase → Bool
is_listed draft validating = true
is_listed validating snapshotting = true
is_listed validating running = true
is_listed snapshotting catching_up = true
is_listed catching_up running = true
is_listed running paused = true
is_listed running degraded = true
is_listed degraded running = true
is_listed degraded paused = true
is_listed paused validating = true
is_listed failed validating = true
is_listed from failed = true
is_listed from stopped = true
is_listed from to = false

unfoldable pub transition :
    PipelineMachine → PipelinePhase → Result PipelineError (Unit {0}) × PipelineMachine
transition m to =
    if is_yes (PipelinePhase-discrete m.phase to) || is_listed m.phase to
    then (ok tt, record m { phase = to })
    else (err (invalid_transition m.phase to), m)

-- How one `apply_and_ack_or_cancel` ends. Cancellation may win before the target is asked, while it
-- applies (its transaction is rolled back), or once the target has committed, before the source has
-- acknowledged; `acknowledge_failed` is also a commit whose response was lost.
pub data Response : Type 0 where
  cancelled_before cancelled_in_apply cancelled_in_acknowledge done : Response
  apply_failed : PipelineError → Response
  acknowledge_failed : PipelineError → Response

pub data Action : Type 0 where
  applied : TransactionBatch → Action
  acknowledged : SourcePosition → Action

-- `looping` goes on, `returned` is the `Ok(())` of a cancellation or of the stream's end, and
-- `panicked` is the failed `expect` of `final_transaction`.
pub data Exit : Type 0 where
  looping returned panicked : Exit
  raised : PipelineError → Exit

-- What a delivery does, and how the loop goes on from it.
abbrev pub Delivery : Type 0
Delivery = List Action × Exit

unfoldable pub acknowledge_final : TransactionBatch → Option SourceTransaction → Delivery
acknowledge_final b none = (applied b ∷ [], panicked)
acknowledge_final b (some t) = (applied b ∷ acknowledged t.final_position ∷ [], looping)

unfoldable pub apply_and_ack_or_cancel : TransactionBatch → Response → Delivery
apply_and_ack_or_cancel b cancelled_before = ([], returned)
apply_and_ack_or_cancel b cancelled_in_apply = ([], returned)
apply_and_ack_or_cancel b cancelled_in_acknowledge = (applied b ∷ [], returned)
apply_and_ack_or_cancel b done = acknowledge_final b (final_transaction b)
apply_and_ack_or_cancel b (apply_failed e) = ([], raised e)
apply_and_ack_or_cancel b (acknowledge_failed e) = (applied b ∷ [], raised e)

unfoldable pub deliver : Option TransactionBatch → Response → Delivery
deliver none r = ([], looping)
deliver (some b) r = apply_and_ack_or_cancel b r

-- One turn of the `select!`: which branch is taken, and how its delivery ends.
pub data Turn : Type 0 where
  cancel : Turn
  timer : Response → Turn
  receive : SourceTransaction → Response → Turn
  end_of_stream : Response → Turn
  source_failed : PipelineError → Turn

pub record Loop : Type 0 where
  pub batcher : Batcher
  pub log : List Action
  pub exit : Exit

-- The loop after a delivery.
unfoldable pub proceed : Loop → Batcher → Delivery → Loop
proceed l b d = record { batcher = b; log = l.log ++ d.0; exit = d.1 }

-- At the end of the stream the loop returns where it would go on.
abbrev pub at_end : Exit → Exit
at_end looping = returned
at_end exit = exit

unfoldable pub conclude : Loop → Batcher → Delivery → Loop
conclude l b d = record { batcher = b; log = l.log ++ d.0; exit = at_end d.1 }

unfoldable pub on_push :
    Loop → Response → Result BatchError (Option TransactionBatch) × Batcher → Loop
on_push l r (ok full, b) = proceed l b (deliver full r)
on_push l r (err e, b) = record l { batcher = b; exit = raised (batch e) }

unfoldable pub on_flush : Loop → Response → Option TransactionBatch × Batcher → Loop
on_flush l r f = proceed l f.1 (deliver f.0 r)

unfoldable pub on_end : Loop → Response → Option TransactionBatch × Batcher → Loop
on_end l r f = conclude l f.1 (deliver f.0 r)

-- The timer's branch is guarded by `!batcher.is_empty()`.
unfoldable pub turn : Loop → Turn → Loop
turn l cancel = record l { exit = returned }
turn l (timer r) = if is_empty l.batcher.pending then l else on_flush l r (flush l.batcher)
turn l (receive t r) = on_push l r (push l.batcher t)
turn l (end_of_stream r) = on_end l r (flush l.batcher)
turn l (source_failed e) = record l { exit = raised e }

-- A loop that has left takes no more turns.
unfoldable pub step : Exit → Loop → Turn → Loop
step looping l t = turn l t
step _ l t = l

unfoldable pub run : Loop → List Turn → Loop
run l [] = l
run l (t ∷ ts) = run (step l.exit l t) ts

abbrev pub start : Batcher → Loop
start b = record { batcher = b; log = []; exit = looping }

unfoldable pub replicate : Batcher → List Turn → Loop
replicate b turns = run (start b) turns
