-- ===== src/Engine/Pipeline/Stream.antt =====
-- The whole loop of crates/engine/src/pipeline.rs, over every sequence of turns.
use etl_server_cloudberry.Prelude.{
  ◌≡◌, ◌≢◌, refl, sym, ap, ap₂, subst, ◌∙◌, inl, inr, Bool-cases, Option, none, List, [], ◌∷◌, ◌++◌,
  is_empty, ok, err, Result, arith,
}
use mathlib.Core.List.{append_assoc, append-nil}
use etl_server_cloudberry.Core.Change.{SourceTransaction}
use etl_server_cloudberry.Engine.Batch.{BatchError, TransactionBatch, Batcher, push, flush}
use etl_server_cloudberry.Engine.Batch.Bounds.{IsValid, emitted}
use etl_server_cloudberry.Engine.Batch.Contract.{Accounts, push-Accounts, Drains, flush-Drains}
use etl_server_cloudberry.Engine.Pipeline.{
  Response, done, Delivery, Exit, looping, returned, panicked, raised, deliver, Turn, cancel, timer,
  receive, end_of_stream, source_failed, Loop, proceed, at_end, conclude, on_push, on_flush, on_end,
  turn, step, run, start, replicate,
}
use etl_server_cloudberry.Engine.Pipeline
use etl_server_cloudberry.Engine.Pipeline.Delivery.{
  delivered, IsAcked, delivered-append, IsAcked-append, IsDelivery, deliver-IsDelivery,
}

-- What the source hands over in a turn, and in a sequence of turns.
abbrev pub received : Turn → List SourceTransaction
received (receive t r) = t ∷ []
received _ = []

abbrev pub stream : List Turn → List SourceTransaction
stream [] = []
stream (t ∷ ts) = received t ++ stream ts

-- Where the loop stands after the source has handed over `sofar`.
pub record Tracks (l : Loop) (sofar : List SourceTransaction) : Type 0 where
  pub valid : IsValid l.batcher
  pub prefix : (rest : List SourceTransaction) × (delivered l.log ++ rest ≡ sofar)
  pub whole : l.exit ≡ looping → delivered l.log ++ l.batcher.pending ≡ sofar
  pub acked : IsAcked none l.log
  pub sound : l.exit ≢ panicked

-- A loop that has left: more of the stream changes nothing.
Tracks-more :
    (l : Loop) (sofar more : List SourceTransaction)
    → l.exit ≢ looping
    → Tracks l sofar
    → Tracks l (sofar ++ more)
Tracks-more l sofar more h t = record {
  valid = t.valid;
  prefix = (
    t.prefix.0 ++ more,
    sym (append_assoc (delivered l.log) t.prefix.0 more) ∙ ap (λ x. x ++ more) t.prefix.1,
  );
  whole = λ e. absurd (h e);
  acked = t.acked;
  sound = t.sound;
}

-- A delivery of `full`, out of a loop whose target and pending transactions are all of `sofar`.
proceed-Tracks :
    (l : Loop) (b : Batcher) (full : Option TransactionBatch) (d : Delivery)
    (sofar : List SourceTransaction)
    → IsDelivery full d
    → IsValid b
    → IsAcked none l.log
    → delivered l.log ++ (emitted full ++ b.pending) ≡ sofar
    → Tracks (proceed l b d) sofar
unfolding proceed
proceed-Tracks l b full d sofar v w acked all =
    let split : delivered (l.log ++ d.0) ≡ delivered l.log ++ delivered d.0 =
      delivered-append l.log d.0 in
    let regroup : delivered d.0 ≡ emitted full → delivered (l.log ++ d.0) ++ b.pending ≡ sofar =
      λ e.
        ap (λ x. x ++ b.pending) split
        ∙ append_assoc (delivered l.log) (delivered d.0) b.pending
        ∙ ap (λ x. delivered l.log ++ (x ++ b.pending)) e
        ∙ all in
    record {
      valid = w;
      prefix = elim v.all_or_none [
        | inr e ↦ (b.pending, regroup e)
        | inl e ↦ (
          emitted full ++ b.pending,
          ap (λ x. x ++ (emitted full ++ b.pending))
                (split ∙ ap (λ x. delivered l.log ++ x) e ∙ append-nil (delivered l.log))
              ∙ all,
        )
      ];
      whole = λ h. regroup (v.all h);
      acked = IsAcked-append none l.log d.0 acked v.acked;
      sound = v.sound;
    }

-- A turn that only ends the loop.
leave-Tracks :
    (l : Loop) (e : Exit) (sofar : List SourceTransaction)
    → e ≢ looping
    → e ≢ panicked
    → Tracks l sofar
    → Tracks (record l { exit = e }) sofar
leave-Tracks l e sofar h k t = record {
  valid = t.valid;
  prefix = t.prefix;
  whole = λ x. absurd (h x);
  acked = t.acked;
  sound = k;
}

flush-Tracks :
    (l : Loop) (f : Option TransactionBatch × Batcher) (r : Response)
    (sofar : List SourceTransaction)
    → Drains l.batcher f
    → l.exit ≡ looping
    → Tracks l sofar
    → Tracks (proceed l f.1 (deliver f.0 r)) sofar
flush-Tracks l f r sofar d e t =
    proceed-Tracks l f.1 f.0 (deliver f.0 r) sofar (deliver-IsDelivery l.batcher.limits f.0 r d.2)
      d.0 t.acked
      (ap₂ (λ (x y : List SourceTransaction). delivered l.log ++ (x ++ y)) d.3 d.1
        ∙ ap (λ x. delivered l.log ++ x) (append-nil l.batcher.pending)
        ∙ t.whole e)

conclude-Tracks :
    (l : Loop) (b : Batcher) (d : Delivery) (sofar : List SourceTransaction)
    → Tracks (proceed l b d) sofar
    → Tracks (conclude l b d) sofar
unfolding proceed conclude
conclude-Tracks l b d sofar t = record {
  valid = t.valid;
  prefix = t.prefix;
  whole = λ h. absurd (ground arith);
  acked = t.acked;
  sound = λ h. t.sound (ground arith);
}

push-Tracks :
    (l : Loop) (t : SourceTransaction) (r : Response) (sofar : List SourceTransaction)
    (o : Result BatchError (Option TransactionBatch) × Batcher)
    → Accounts l.batcher t o
    → l.exit ≡ looping
    → Tracks l sofar
    → Tracks (on_push l r o) (sofar ++ t ∷ [])
unfolding on_push
push-Tracks l t r sofar (err x, b) a e v =
    Tracks-more (record l { batcher = b; exit = raised (Pipeline.batch x) }) sofar (t ∷ [])
      (λ h. cc)
      (record {
        valid = subst IsValid (sym a) v.valid;
        prefix = v.prefix;
        whole = λ h. absurd (cc);
        acked = v.acked;
        sound = λ h. cc;
      })
push-Tracks l t r sofar (ok full, b) a e v =
    proceed-Tracks l b full (deliver full r) (sofar ++ t ∷ [])
      (deliver-IsDelivery l.batcher.limits full r a.1) a.0 v.acked
      (ap (λ x. delivered l.log ++ x) a.2
        ∙ sym (append_assoc (delivered l.log) l.batcher.pending (t ∷ []))
        ∙ ap (λ x. x ++ t ∷ []) (v.whole e))

turn-Tracks :
    (l : Loop) (t : Turn) (sofar : List SourceTransaction)
    → l.exit ≡ looping
    → Tracks l sofar
    → Tracks (turn l t) (sofar ++ received t)
unfolding turn on_flush on_end
turn-Tracks l cancel sofar e v = rw append-nil (leave-Tracks l returned sofar (λ h. cc) (λ h. cc) v)
turn-Tracks l (timer r) sofar e v = rw append-nil (elim (Bool-cases (is_empty l.batcher.pending)) [
  | inl idle ↦ rw idle v
  | inr busy ↦
      rw busy (flush-Tracks l (flush l.batcher) r sofar (flush-Drains l.batcher v.valid) e v)
])
turn-Tracks l (receive t r) sofar e v =
    push-Tracks l t r sofar (push l.batcher t) (push-Accounts l.batcher t v.valid) e v
turn-Tracks l (end_of_stream r) sofar e v = rw append-nil (
    conclude-Tracks l (flush l.batcher).1 (deliver (flush l.batcher).0 r) sofar
      (flush-Tracks l (flush l.batcher) r sofar (flush-Drains l.batcher v.valid) e v))
turn-Tracks l (source_failed x) sofar e v =
    rw append-nil (leave-Tracks l (raised x) sofar (λ h. cc) (λ h. cc) v)

step-Tracks :
    (e : Exit) (l : Loop) (t : Turn) (sofar : List SourceTransaction)
    → l.exit ≡ e
    → Tracks l sofar
    → Tracks (step e l t) (sofar ++ received t)
unfolding step
step-Tracks looping l t sofar e v = turn-Tracks l t sofar e v
step-Tracks returned l t sofar e v = Tracks-more l sofar (received t) (λ h. cc) v
step-Tracks panicked l t sofar e v = Tracks-more l sofar (received t) (λ h. cc) v
step-Tracks (raised x) l t sofar e v = Tracks-more l sofar (received t) (λ h. cc) v

pub run-Tracks :
    (ts : List Turn) (l : Loop) (sofar : List SourceTransaction)
    → Tracks l sofar
    → Tracks (run l ts) (sofar ++ stream ts)
unfolding run
run-Tracks [] l sofar v = rw append-nil v
run-Tracks (t ∷ ts) l sofar v =
    subst (Tracks (run (step l.exit l t) ts)) (append_assoc sofar (received t) (stream ts))
      (run-Tracks ts (step l.exit l t) (sofar ++ received t) (step-Tracks l.exit l t sofar refl v))

start-Tracks : (b : Batcher) → IsValid b → b.pending ≡ [] → Tracks (start b) []
start-Tracks b v e = record {
  valid = v;
  prefix = ([], refl);
  whole = λ h. e;
  acked = tt;
  sound = λ h. cc;
}

pub run_start-Tracks :
    (b : Batcher) (ts : List Turn)
    → IsValid b
    → b.pending ≡ []
    → Tracks (run (start b) ts) (stream ts)
run_start-Tracks b ts v e = run-Tracks ts (start b) [] (start-Tracks b v e)

-- What the target lacks of `sofar`: the pending transactions while the loop runs, and some rest of
-- the stream once it has left.
abbrev pub Lacks : Exit → Loop → List SourceTransaction → Type 0
Lacks looping l sofar = delivered l.log ++ l.batcher.pending ≡ sofar
Lacks _ l sofar = (rest : List SourceTransaction) × (delivered l.log ++ rest ≡ sofar)

Tracks-Lacks :
    (e : Exit) (l : Loop) (sofar : List SourceTransaction)
    → l.exit ≡ e
    → Tracks l sofar
    → Lacks e l sofar
Tracks-Lacks looping l sofar h t = t.whole h
Tracks-Lacks returned l sofar h t = t.prefix
Tracks-Lacks panicked l sofar h t = t.prefix
Tracks-Lacks (raised x) l sofar h t = t.prefix

-- From an empty valid batcher, through any sequence of turns with any cancellations and failures:
-- the transactions that reached the target are a prefix of the stream, in order and without a gap;
-- while the loop runs, exactly the pending ones are missing; each acknowledgement stands directly
-- behind the application of a batch that ends at its position; and the loop does not panic.
pub replicate-Lacks :
    (b : Batcher) (ts : List Turn)
    → IsValid b
    → b.pending ≡ []
    → let l = replicate b ts in
      Lacks l.exit l (stream ts) × IsAcked none l.log × (l.exit ≢ panicked)
unfolding replicate
replicate-Lacks b ts v e =
    let l = run (start b) ts in
    let t = run_start-Tracks b ts v e in
    (Tracks-Lacks l.exit l (stream ts) refl t, t.acked, t.sound)
