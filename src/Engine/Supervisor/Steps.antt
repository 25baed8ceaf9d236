-- ===== src/Engine/Supervisor/Steps.antt =====
-- The tasks of the supervisor (crates/engine/src/supervisor.rs) as its log tells them: what
-- a step leaves as it was.
use etl_server_cloudberry.Prelude.{
  if_neg, if_pos, some_inj, ℕ, ◌≡◌, refl, sym, ◌∙◌, subst, true, false, ◌&&◌, ◌||◌, Bool, some,
  List, [], ◌∷◌, ◌==◌, ℕ_discrete, ok, err, arith,
}
use etl_server_cloudberry.Prelude.Assoc.{Assoc, get}
use etl_server_cloudberry.Engine.Supervisor.{
  as_failed, as_stopped, Mark, Event, spawned, cancelled, aborted, joined, marked, Environment,
  PipelineSupervisor, ManagedPipeline, happens, telemetry_for, finish_mark, record_finished,
  join_managed, cancel_all, join_all, TaskResult,
}

unfoldable pub was_spawned : ℕ → ℕ → List Event → Bool
was_spawned id t [] = false
was_spawned id t (spawned i u ∷ log) = (i == id && u == t) || was_spawned id t log
was_spawned id t (_ ∷ log) = was_spawned id t log

unfoldable pub was_joined : ℕ → ℕ → List Event → Bool
was_joined id t [] = false
was_joined id t (joined i u ∷ log) = (i == id && u == t) || was_joined id t log
was_joined id t (_ ∷ log) = was_joined id t log

-- A step that spawns nothing and forgets no join.
pub record Leaves (s s' : PipelineSupervisor) : Type 0 where
  pub spawned_same : (id t : ℕ) → was_spawned id t s'.log ≡ was_spawned id t s.log
  pub joined_kept : (id t : ℕ) → was_joined id t s.log ≡ true → was_joined id t s'.log ≡ true
  pub pipelines_same : s'.pipelines ≡ s.pipelines

pub Leaves-refl : (s : PipelineSupervisor) → Leaves s s
Leaves-refl s = record {
  spawned_same = λ id t. refl;
  joined_kept = λ id t h. h;
  pipelines_same = refl;
}

pub Leaves-trans : {s t u : PipelineSupervisor} → Leaves s t → Leaves t u → Leaves s u
Leaves-trans p q = record {
  spawned_same = λ id t. q.spawned_same id t ∙ p.spawned_same id t;
  joined_kept = λ id t h. q.joined_kept id t (p.joined_kept id t h);
  pipelines_same = q.pipelines_same ∙ p.pipelines_same;
}

marked-Leaves : (s : PipelineSupervisor) (id : ℕ) (m : Mark) → Leaves s (happens s (marked id m))
unfolding happens was_spawned was_joined
marked-Leaves s id m = record {
  spawned_same = λ i t. refl;
  joined_kept = λ i t h. h;
  pipelines_same = refl;
}

pub cancelled-Leaves : (s : PipelineSupervisor) (id u : ℕ) → Leaves s (happens s (cancelled id u))
unfolding happens was_spawned was_joined
cancelled-Leaves s id u = record {
  spawned_same = λ i t. refl;
  joined_kept = λ i t h. h;
  pipelines_same = refl;
}

pub aborted-Leaves : (s : PipelineSupervisor) (id u : ℕ) → Leaves s (happens s (aborted id u))
unfolding happens was_spawned was_joined
aborted-Leaves s id u = record {
  spawned_same = λ i t. refl;
  joined_kept = λ i t h. h;
  pipelines_same = refl;
}

pub joined-Leaves : (s : PipelineSupervisor) (id u : ℕ) → Leaves s (happens s (joined id u))
unfolding happens was_spawned was_joined
joined-Leaves s id u = record {
  spawned_same = λ i t. refl;
  joined_kept = λ i t h. ground arith;
  pipelines_same = refl;
}

pub joined-was_joined :
    (s : PipelineSupervisor) (id u : ℕ) → was_joined id u (happens s (joined id u)).log ≡ true
unfolding happens was_joined
joined-was_joined s id u = ground arith

pub record_finished-Leaves :
    (e : Environment) (s : PipelineSupervisor) (id : ℕ) (result : TaskResult) (b : Bool)
    → Leaves s (record_finished e s id result b)
unfolding record_finished finish_mark
record_finished-Leaves e s id (ok done) true =
    ground (arith, Leaves-refl s, marked-Leaves s id as_stopped)
record_finished-Leaves e s id (ok done) false =
    ground (arith, Leaves-refl s, marked-Leaves s id as_stopped)
record_finished-Leaves e s id (err x) true =
    ground (arith, Leaves-refl s, marked-Leaves s id as_stopped)
record_finished-Leaves e s id (err x) false =
    ground (arith, Leaves-refl s, marked-Leaves s id (as_failed x))

pub join_managed-Leaves :
    (e : Environment) (s : PipelineSupervisor) (id : ℕ) (m : ManagedPipeline) (b : Bool)
    → Leaves s (join_managed e s id m b)
unfolding join_managed
join_managed-Leaves e s id m b =
    Leaves-trans (joined-Leaves s id m.task) (record_finished-Leaves e _ id (e.outcome m.task) b)

pub join_managed-was_joined :
    (e : Environment) (s : PipelineSupervisor) (id : ℕ) (m : ManagedPipeline) (b : Bool)
    → was_joined id m.task (join_managed e s id m b).log ≡ true
unfolding join_managed
join_managed-was_joined e s id m b =
    (record_finished-Leaves e _ id (e.outcome m.task) b).joined_kept id m.task
      (joined-was_joined s id m.task)

pub telemetry_for-Leaves : (s : PipelineSupervisor) (id : ℕ) → Leaves s (telemetry_for s id)
unfolding telemetry_for
telemetry_for-Leaves s id = ground (arith, Leaves-refl s)

pub cancel_all-Leaves :
    (ms : Assoc ℕ ManagedPipeline) (s : PipelineSupervisor) → Leaves s (cancel_all ms s)
unfolding cancel_all
cancel_all-Leaves [] s = Leaves-refl s
cancel_all-Leaves ((id, m) ∷ ms) s =
    Leaves-trans (cancelled-Leaves s id m.task) (cancel_all-Leaves ms _)

pub join_all-Leaves :
    (e : Environment) (b : Bool) (ms : Assoc ℕ ManagedPipeline) (s : PipelineSupervisor)
    → Leaves s (join_all e b ms s)
unfolding join_all
join_all-Leaves e b [] s = Leaves-refl s
join_all-Leaves e b ((id, m) ∷ ms) s =
    Leaves-trans (join_managed-Leaves e s id m b) (join_all-Leaves e b ms _)

pub join_all-was_joined :
    (e : Environment) (b : Bool) (ms : Assoc ℕ ManagedPipeline) (s : PipelineSupervisor) (id : ℕ)
    (m : ManagedPipeline)
    → get ℕ_discrete id ms ≡ some m
    → was_joined id m.task (join_all e b ms s).log ≡ true
unfolding join_all get
join_all-was_joined e b [] s id m h = absurd (cc)
join_all-was_joined e b ((i, n) ∷ ms) s id m h = elim (ℕ_discrete i id) [
  | yes p ↦
      let n_is_m : n ≡ m = some_inj (sym (if_pos (ℕ_discrete i id) p _ _) ∙ h) in
      (join_all-Leaves e b ms _).joined_kept id m.task (
        subst (λ j. was_joined j m.task (join_managed e s i n b).log ≡ true) p
          (subst (λ k. was_joined i k.task (join_managed e s i n b).log ≡ true) n_is_m
            (join_managed-was_joined e s i n b)))
  | no q ↦ join_all-was_joined e b ms _ id m (sym (if_neg (ℕ_discrete i id) q _ _) ∙ h)
]
