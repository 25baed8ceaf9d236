-- ===== src/Engine/Supervisor/Owned.antt =====
-- The tasks of the supervisor (crates/engine/src/supervisor.rs) that were spawned and not joined.
use etl_server_cloudberry.Prelude.{
  Option-cases, ap, some_inj, ℕ, ◌≡◌, refl, sym, ◌∙◌, subst, true, false, Bool, Bool-cases, none,
  some, List, [], ◌∷◌, ℕ_discrete, err, arith, ◌⊎◌, inl, inr,
}
use etl_server_cloudberry.Prelude.Assoc.{get-remove_ne, Assoc, get, get-insert}
use etl_server_cloudberry.Engine.Supervisor.{
  stop_timeout, start_new, Event, cancelled, aborted, joined, Environment, PipelineSupervisor,
  ManagedPipeline, Call, start_call, stop_call, stop_with_timeout_call, stop_all_call, reap_call,
  serve, serve_all, new_supervisor, happens, telemetry_for, spawn, start_over, start, stop_managed,
  stop, stop_in_time, stop_with_timeout, stop_all, with_finished, reap_finished, take_out,
}
use etl_server_cloudberry.Engine.Supervisor.Steps.{
  was_spawned, was_joined, Leaves, Leaves-trans, cancelled-Leaves, aborted-Leaves, joined-Leaves,
  joined-was_joined, record_finished-Leaves, join_managed-Leaves, join_managed-was_joined,
  telemetry_for-Leaves, cancel_all-Leaves, join_all-Leaves, join_all-was_joined,
}

-- Every task that was spawned is joined, or it is the one of its pipeline.
abbrev IsOwned : PipelineSupervisor → Type 0
IsOwned s =
    (id t : ℕ)
    → was_spawned id t s.log ≡ true
    → was_joined id t s.log ≡ false
    → get ℕ_discrete id s.pipelines ≡ some (record { task = t })

not_true : (b : Bool) {c : Bool} → (b ≡ true → c ≡ true) → c ≡ false → b ≡ false
not_true false f h = refl
not_true true f h = absurd (cc (f refl, h))

kept-IsOwned :
    (s : PipelineSupervisor) (left : Assoc ℕ ManagedPipeline) (s' : PipelineSupervisor)
    → IsOwned s
    → Leaves (record s { pipelines = left }) s'
    → ((id : ℕ) (m : ManagedPipeline)
        → get ℕ_discrete id s.pipelines ≡ some m
        → (get ℕ_discrete id left ≡ some m) ⊎ (was_joined id m.task s'.log ≡ true))
    → IsOwned s'
kept-IsOwned s left s' owned leaves kept id t h1 h2 =
    let spawned_before = sym (leaves.spawned_same id t) ∙ h1 in
    let entry =
      owned id t spawned_before
        (not_true (was_joined id t s.log) (λ h. leaves.joined_kept id t h) h2) in
    elim (kept id _ entry) [ inl stays ↦ rw leaves.pipelines_same stays | inr over ↦ absurd (cc) ]

take_out-kept :
    (s : PipelineSupervisor) (id : ℕ) (m : ManagedPipeline) (log : List Event)
    → get ℕ_discrete id s.pipelines ≡ some m
    → was_joined id m.task log ≡ true
    → (i : ℕ) (n : ManagedPipeline) → get ℕ_discrete i s.pipelines ≡ some n
    → (get ℕ_discrete i (take_out s id).pipelines ≡ some n) ⊎ (was_joined i n.task log ≡ true)
take_out-kept s id m log h over i n h2 = elim (ℕ_discrete id i) [
  | yes p ↦ inr (
      subst (λ j. was_joined j n.task log ≡ true) p
        (subst (λ k. was_joined id k.task log ≡ true)
          (some_inj (sym h ∙ (ap (λ j. get ℕ_discrete j s.pipelines) p ∙ h2))) over))
  | no q ↦ inl (get-remove_ne ℕ_discrete id i s.pipelines q ∙ h2)
]

-- What `start`, `stop` and `stop_with_timeout` do with the task that they take out.
take_out-IsOwned :
    (s : PipelineSupervisor) (id : ℕ) (m : ManagedPipeline) (s' : PipelineSupervisor)
    → IsOwned s
    → get ℕ_discrete id s.pipelines ≡ some m
    → Leaves (take_out s id) s'
    → was_joined id m.task s'.log ≡ true
    → IsOwned s'
take_out-IsOwned s id m s' owned h leaves over =
    kept-IsOwned s _ s' owned leaves (take_out-kept s id m s'.log h over)

Leaves-IsOwned : (s s' : PipelineSupervisor) → IsOwned s → Leaves s s' → IsOwned s'
Leaves-IsOwned s s' owned leaves = kept-IsOwned s s.pipelines s' owned leaves (λ id m h. inl h)

spawn-IsOwned :
    (s : PipelineSupervisor) (id : ℕ)
    → get ℕ_discrete id s.pipelines ≡ none
    → IsOwned s
    → IsOwned (spawn s id)
unfolding spawn was_spawned was_joined
spawn-IsOwned s id h owned i t h1 h2 =
    ground
      (arith, owned i t, h, get-insert ℕ_discrete id i (record { task = s.next_task }) s.pipelines)

start_new-IsOwned : (s : PipelineSupervisor) (id : ℕ) → IsOwned s → IsOwned (start_new s id).1
unfolding start_new
start_new-IsOwned s id owned = elim (Option-cases (get ℕ_discrete id s.pipelines)) [
  | inl h ↦ rw (start_new, h) (spawn-IsOwned s id h owned)
  | inr (m, h) ↦ rw (start_new, h) owned
]

start_over-IsOwned :
    (e : Environment) (s : PipelineSupervisor) (id : ℕ) (m : ManagedPipeline)
    → get ℕ_discrete id s.pipelines ≡ some m
    → IsOwned s
    → IsOwned (start_over e s id m).1
unfolding start_over
start_over-IsOwned e s id m h owned = elim (Bool-cases (e.is_finished m.task)) [
  | inl f ↦
      rw (start_over, f)
        (start_new-IsOwned _ id (
          take_out-IsOwned s id m _ owned h
            (Leaves-trans (join_managed-Leaves e (take_out s id) id m false)
              (telemetry_for-Leaves _ id))
            ((telemetry_for-Leaves _ id).joined_kept id m.task
              (join_managed-was_joined e (take_out s id) id m false))))
  | inr f ↦ rw (start_over, f) owned
]

start-IsOwned :
    (e : Environment) (s : PipelineSupervisor) (id : ℕ) → IsOwned s → IsOwned (start e s id).1
unfolding start
start-IsOwned e s id owned = elim (Option-cases (get ℕ_discrete id s.pipelines)) [
  | inl h ↦
      rw (start, h)
        (start_new-IsOwned (telemetry_for s id) id
          (Leaves-IsOwned s _ owned (telemetry_for-Leaves s id)))
  | inr (m, h) ↦ rw (start, h) (start_over-IsOwned e s id m h owned)
]

stop-IsOwned :
    (e : Environment) (s : PipelineSupervisor) (id : ℕ) → IsOwned s → IsOwned (stop e s id).1
unfolding stop stop_managed
stop-IsOwned e s id owned = elim (Option-cases (get ℕ_discrete id s.pipelines)) [
  | inl h ↦ rw (stop, h) owned
  | inr (m, h) ↦
      rw (stop, h)
        (take_out-IsOwned s id m _ owned h
          (Leaves-trans (cancelled-Leaves (take_out s id) id m.task)
            (join_managed-Leaves e _ id m true))
          (join_managed-was_joined e _ id m true))
]

stop_in_time-IsOwned :
    (e : Environment) (s : PipelineSupervisor) (id : ℕ) (m : ManagedPipeline)
    → get ℕ_discrete id s.pipelines ≡ some m
    → IsOwned s
    → IsOwned (stop_in_time e s id m).1
unfolding stop_in_time
stop_in_time-IsOwned e s id m h owned =
    let asked = happens (take_out s id) (cancelled id m.task) in
    let asked-Leaves = cancelled-Leaves (take_out s id) id m.task in
    elim (Bool-cases (e.times_out m.task)) [
      | inl f ↦
          rw (stop_in_time, f)
            (let awaited = happens (happens asked (aborted id m.task)) (joined id m.task) in
              let awaited-Leaves =
                Leaves-trans (aborted-Leaves asked id m.task) (joined-Leaves _ id m.task) in
              let recorded = record_finished-Leaves e awaited id (err (stop_timeout id)) false in
              take_out-IsOwned s id m _ owned h
                (Leaves-trans asked-Leaves (Leaves-trans awaited-Leaves recorded))
                (recorded.joined_kept id m.task (joined-was_joined _ id m.task)))
      | inr f ↦
          rw (stop_in_time, f)
            (take_out-IsOwned s id m _ owned h
              (Leaves-trans asked-Leaves (join_managed-Leaves e asked id m _))
              (join_managed-was_joined e asked id m _))
    ]

stop_with_timeout-IsOwned :
    (e : Environment) (s : PipelineSupervisor) (id : ℕ)
    → IsOwned s
    → IsOwned (stop_with_timeout e s id).1
unfolding stop_with_timeout
stop_with_timeout-IsOwned e s id owned = elim (Option-cases (get ℕ_discrete id s.pipelines)) [
  | inl h ↦ rw (stop_with_timeout, h) owned
  | inr (m, h) ↦ rw (stop_with_timeout, h) (stop_in_time-IsOwned e s id m h owned)
]

stop_all-IsOwned : (e : Environment) (s : PipelineSupervisor) → IsOwned s → IsOwned (stop_all e s).1
unfolding stop_all
stop_all-IsOwned e s owned =
    let none_left = record s { pipelines = [] } in
    kept-IsOwned s [] _ owned
      (Leaves-trans (cancel_all-Leaves s.pipelines none_left)
        (join_all-Leaves e true s.pipelines _))
      (λ id m h. inr (join_all-was_joined e true s.pipelines _ id m h))

get-with_finished :
    (e : Environment) (id : ℕ) (m : ManagedPipeline) (ms : Assoc ℕ ManagedPipeline)
    → get ℕ_discrete id ms ≡ some m
    → (get ℕ_discrete id (with_finished e false ms) ≡ some m)
      ⊎ (get ℕ_discrete id (with_finished e true ms) ≡ some m)
unfolding get with_finished
get-with_finished e id m [] h = inl h
get-with_finished e id m ((i, n) ∷ ms) h = ground (arith, get-with_finished e id m ms)

reap_finished-IsOwned :
    (e : Environment) (s : PipelineSupervisor) → IsOwned s → IsOwned (reap_finished e s).1
unfolding reap_finished
reap_finished-IsOwned e s owned =
    let unfinished = with_finished e false s.pipelines in
    let finished = with_finished e true s.pipelines in
    kept-IsOwned s unfinished _ owned (join_all-Leaves e false finished _) (λ id m h.
      elim (get-with_finished e id m s.pipelines h) [
        | inl stays ↦ inl stays
        | inr over ↦ inr (join_all-was_joined e false finished _ id m over)
      ])

serve-IsOwned :
    (s : PipelineSupervisor) (e : Environment) (c : Call) → IsOwned s → IsOwned (serve s e c)
serve-IsOwned s e (start_call id) owned = start-IsOwned e s id owned
serve-IsOwned s e (stop_call id) owned = stop-IsOwned e s id owned
serve-IsOwned s e (stop_with_timeout_call id) owned = stop_with_timeout-IsOwned e s id owned
serve-IsOwned s e stop_all_call owned = stop_all-IsOwned e s owned
serve-IsOwned s e reap_call owned = reap_finished-IsOwned e s owned

serve_all-IsOwned :
    (calls : List (Environment × Call)) (s : PipelineSupervisor)
    → IsOwned s
    → IsOwned (serve_all s calls)
serve_all-IsOwned [] s owned = owned
serve_all-IsOwned ((e, c) ∷ calls) s owned =
    serve_all-IsOwned calls (serve s e c) (serve-IsOwned s e c owned)

-- Whatever calls the supervisor serves, in any order and however the tasks end: a task that was
-- spawned for a pipeline and not joined is the one that the supervisor holds for the pipeline, so
-- that a pipeline never has two tasks, and none that a later stop would not reach.
pub serve_all-owns :
    (calls : List (Environment × Call)) (id t : ℕ)
    → was_spawned id t (serve_all new_supervisor calls).log ≡ true
    → was_joined id t (serve_all new_supervisor calls).log ≡ false
    → get ℕ_discrete id (serve_all new_supervisor calls).pipelines ≡ some (record { task = t })
unfolding was_spawned
serve_all-owns calls id t h1 h2 =
    serve_all-IsOwned calls new_supervisor (λ i u h k. absurd (cc)) id t h1 h2
