-- ===== src/Engine/Pipeline/Machine.antt =====
-- The phase machine of crates/engine/src/pipeline.rs, over sequences of requested transitions.
use etl_server_cloudberry.Prelude.{
  ◌≡◌, ◌≢◌, refl, ◌⊎◌, inl, inr, Bool, true, false, is_yes, is_yes-of, Bool-cases, ◌||◌, List, [],
  ◌∷◌, ok, err, arith, All,
}
use etl_server_cloudberry.Core.Pipeline.{
  PipelinePhase, PipelinePhase-discrete, draft, validating, snapshotting, catching_up, running,
  paused, degraded, failed, stopped,
}
use etl_server_cloudberry.Engine.Pipeline.{
  PipelineMachine, invalid_transition, is_listed, transition,
}

-- The diagram of the phases.
infix 40 ◌⟶◌
pub data ◌⟶◌ : PipelinePhase → PipelinePhase → Type 0 where
  stay : {p : PipelinePhase} → p ⟶ p
  validate : draft ⟶ validating
  snapshot : validating ⟶ snapshotting
  resume : validating ⟶ running
  catch_up : snapshotting ⟶ catching_up
  caught_up : catching_up ⟶ running
  pause : running ⟶ paused
  degrade : running ⟶ degraded
  recover : degraded ⟶ running
  pause_degraded : degraded ⟶ paused
  unpause : paused ⟶ validating
  retry : failed ⟶ validating
  fail : {p : PipelinePhase} → p ⟶ failed
  stop : {p : PipelinePhase} → p ⟶ stopped

abbrev is_allowed : PipelinePhase → PipelinePhase → Bool
is_allowed p q = is_yes (PipelinePhase-discrete p q) || is_listed p q

is_allowed-⟶ : (p q : PipelinePhase) → is_allowed p q ≡ true → p ⟶ q
unfolding is_listed PipelinePhase-discrete
is_allowed-⟶ draft draft h = stay
is_allowed-⟶ validating validating h = stay
is_allowed-⟶ snapshotting snapshotting h = stay
is_allowed-⟶ catching_up catching_up h = stay
is_allowed-⟶ running running h = stay
is_allowed-⟶ paused paused h = stay
is_allowed-⟶ degraded degraded h = stay
is_allowed-⟶ p failed h = fail
is_allowed-⟶ p stopped h = stop
is_allowed-⟶ draft validating h = validate
is_allowed-⟶ validating snapshotting h = snapshot
is_allowed-⟶ validating running h = resume
is_allowed-⟶ snapshotting catching_up h = catch_up
is_allowed-⟶ catching_up running h = caught_up
is_allowed-⟶ running paused h = pause
is_allowed-⟶ running degraded h = degrade
is_allowed-⟶ degraded running h = recover
is_allowed-⟶ degraded paused h = pause_degraded
is_allowed-⟶ paused validating h = unpause
is_allowed-⟶ failed validating h = retry
is_allowed-⟶ p q h = absurd (cc)

is_allowed_self : (p : PipelinePhase) → is_allowed p p ≡ true
is_allowed_self p = rw (is_yes-of (PipelinePhase-discrete p p) refl) refl

is_listed_failed : (p : PipelinePhase) → is_listed p failed ≡ true
unfolding is_listed
is_listed_failed draft = refl
is_listed_failed p = refl

is_listed_stopped : (p : PipelinePhase) → is_listed p stopped ≡ true
unfolding is_listed
is_listed_stopped draft = refl
is_listed_stopped p = refl

or_true : (b : Bool) {c : Bool} → c ≡ true → (b || c) ≡ true
or_true true h = refl
or_true false h = h

⟶-is_allowed : {p q : PipelinePhase} → p ⟶ q → is_allowed p q ≡ true
unfolding is_listed PipelinePhase-discrete
⟶-is_allowed (stay {p = p}) = is_allowed_self p
⟶-is_allowed (fail {p = p}) = or_true _ (is_listed_failed p)
⟶-is_allowed (stop {p = p}) = or_true _ (is_listed_stopped p)
⟶-is_allowed validate = refl
⟶-is_allowed snapshot = refl
⟶-is_allowed resume = refl
⟶-is_allowed catch_up = refl
⟶-is_allowed caught_up = refl
⟶-is_allowed pause = refl
⟶-is_allowed degrade = refl
⟶-is_allowed recover = refl
⟶-is_allowed pause_degraded = refl
⟶-is_allowed unpause = refl
⟶-is_allowed retry = refl

-- A transition succeeds exactly along an edge of the diagram. It then enters the requested phase, and
-- otherwise reports both phases and stays.
pub transition-⟶ :
    (m : PipelineMachine) (to : PipelinePhase)
    → ((m.phase ⟶ to) × (transition m to ≡ (ok tt, record { phase = to })))
      ⊎ ((¬ (m.phase ⟶ to)) × (transition m to ≡ (err (invalid_transition m.phase to), m)))
unfolding transition
transition-⟶ m to = elim (Bool-cases (is_allowed m.phase to)) [
  | inl e ↦ inl (is_allowed-⟶ m.phase to e, rw e refl)
  | inr e ↦ inr (λ s. absurd (ground (arith, ⟶-is_allowed s)), rw e refl)
]

-- The machine after a sequence of requests, refused ones included.
pub request_all : PipelineMachine → List PipelinePhase → PipelineMachine
request_all m [] = m
request_all m (p ∷ ps) = request_all (transition m p).1 ps

-- Outside of replication: a phase that is reached without a validation.
abbrev pub is_idle : PipelinePhase → Bool
is_idle draft = true
is_idle failed = true
is_idle stopped = true
is_idle _ = false

idle_step : {p q : PipelinePhase} → p ⟶ q → is_idle p ≡ true → q ≢ validating → is_idle q ≡ true
idle_step stay h k = h
idle_step fail h k = refl
idle_step stop h k = refl
idle_step validate h k = absurd (k refl)
idle_step retry h k = absurd (k refl)
idle_step unpause h k = absurd (k refl)
idle_step snapshot h k = h
idle_step resume h k = h
idle_step catch_up h k = h
idle_step caught_up h k = h
idle_step pause h k = h
idle_step degrade h k = absurd (cc)
idle_step recover h k = h
idle_step pause_degraded h k = h

-- Without a request to validate, a pipeline that is drafted, failed or stopped stays so: it never
-- snapshots, catches up or runs.
pub request_all-is_idle :
    (m : PipelineMachine) (ps : List PipelinePhase)
    → is_idle m.phase ≡ true
    → All (λ p. p ≢ validating) ps
    → is_idle (request_all m ps).phase ≡ true
unfolding request_all
request_all-is_idle m [] h k = h
request_all-is_idle m (p ∷ ps) h k = elim (transition-⟶ m p) [
  | inl (s, e) ↦ request_all-is_idle (transition m p).1 ps (rw e (idle_step s h k.0)) k.1
  | inr (s, e) ↦ request_all-is_idle (transition m p).1 ps (rw e h) k.1
]
