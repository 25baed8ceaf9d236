-- ===== src/Engine/Supervisor.antt =====
-- crates/engine/src/supervisor.rs: which task runs for a pipeline. A call holds the lifecycle lock from
-- its start to its end, so calls take effect one after the other. What tasks do meanwhile is an
-- argument of each call; what the supervisor does to tasks and to their telemetry is a log, the latest
-- event first.
pub mod Steps
pub mod Owned
use etl_server_cloudberry.Prelude.{
  ℕ, ◌+◌, Bool, true, false, not, Option, none, some, List, [], ◌∷◌, Text, any, map, ◌==◌,
  if◌then◌else◌, ℕ_discrete, Result, ok, err,
}
use etl_server_cloudberry.Prelude.Assoc.{Assoc, get, insert, remove}
use etl_server_cloudberry.Engine.Telemetry.{PipelineRuntimeState, failed, degraded}

pub data SupervisorError : Type 0 where
  already_running not_running : ℕ → SupervisorError
  task_failed join_failed : Text → SupervisorError
  stop_timeout : ℕ → SupervisorError

abbrev pub TaskResult : Type 0
TaskResult = Result SupervisorError (Unit {0})

-- A task by the number of its spawning; its token is cancelled by an event of the log.
pub record ManagedPipeline : Type 0 where
  pub task : ℕ

pub data Mark : Type 0 where
  as_started as_stopped : Mark
  as_failed : SupervisorError → Mark

pub data Event : Type 0 where
  spawned cancelled aborted joined : ℕ → ℕ → Event
  marked : ℕ → Mark → Event

-- What a call finds: whether a task has finished, how it ends, whether it outlasts the timeout of a
-- stop, and the state that its telemetry reports.
pub record Environment : Type 0 where
  pub is_finished : ℕ → Bool
  pub outcome : ℕ → TaskResult
  pub times_out : ℕ → Bool
  pub state : ℕ → PipelineRuntimeState

pub record PipelineSupervisor : Type 0 where
  pub pipelines : Assoc ℕ ManagedPipeline
  pub telemetry : List ℕ
  pub next_task : ℕ
  pub log : List Event

abbrev pub new_supervisor : PipelineSupervisor
new_supervisor = record { pipelines = []; telemetry = []; next_task = 0; log = [] }

unfoldable pub happens : PipelineSupervisor → Event → PipelineSupervisor
happens s event = record s { log = event ∷ s.log }

abbrev pub has_telemetry : PipelineSupervisor → ℕ → Bool
has_telemetry s id = any (λ known. known == id) s.telemetry

unfoldable pub telemetry_for : PipelineSupervisor → ℕ → PipelineSupervisor
telemetry_for s id = if has_telemetry s id then s else record s { telemetry = id ∷ s.telemetry }

unfoldable pub is_broken : PipelineRuntimeState → Bool
is_broken degraded = true
is_broken failed = true
is_broken _ = false

unfoldable pub finish_mark :
    Environment → ℕ → TaskResult → Bool → PipelineSupervisor → PipelineSupervisor
finish_mark e id result true s = happens s (marked id as_stopped)
finish_mark e id (err error) false s = happens s (marked id (as_failed error))
finish_mark e id (ok done) false s =
    if is_broken (e.state id) then s else happens s (marked id as_stopped)

unfoldable pub record_finished :
    Environment → PipelineSupervisor → ℕ → TaskResult → Bool → PipelineSupervisor
record_finished e s id result intentional_stop =
    if has_telemetry s id then finish_mark e id result intentional_stop s else s

-- `join_managed` and `record_finished` of a task that is no longer in the map.
unfoldable pub join_managed :
    Environment → PipelineSupervisor → ℕ → ManagedPipeline → Bool → PipelineSupervisor
join_managed e s id m intentional_stop =
    record_finished e (happens s (joined id m.task)) id (e.outcome m.task) intentional_stop

abbrev pub take_out : PipelineSupervisor → ℕ → PipelineSupervisor
take_out s id = record s { pipelines = remove ℕ_discrete id s.pipelines }

unfoldable pub spawn : PipelineSupervisor → ℕ → PipelineSupervisor
spawn s id = record s {
  pipelines = insert ℕ_discrete id (record { task = s.next_task }) s.pipelines;
  next_task = s.next_task + 1;
  log = spawned id s.next_task ∷ marked id as_started ∷ s.log;
}

-- The end of `start`.
unfoldable pub start_new : PipelineSupervisor → ℕ → TaskResult × PipelineSupervisor
start_new s id = elim (get ℕ_discrete id s.pipelines) [
  | some m ↦ (err (already_running id), s)
  | none ↦ (ok tt, spawn s id)
]

unfoldable pub start_over :
    Environment → PipelineSupervisor → ℕ → ManagedPipeline → TaskResult × PipelineSupervisor
start_over e s id m =
    if e.is_finished m.task
    then start_new (telemetry_for (join_managed e (take_out s id) id m false) id) id
    else (err (already_running id), s)

unfoldable pub start : Environment → PipelineSupervisor → ℕ → TaskResult × PipelineSupervisor
start e s id = elim (get ℕ_discrete id s.pipelines) [
  | some m ↦ start_over e s id m
  | none ↦ start_new (telemetry_for s id) id
]

unfoldable pub stop_managed :
    Environment → PipelineSupervisor → ℕ → ManagedPipeline → TaskResult × PipelineSupervisor
stop_managed e s id m =
    (e.outcome m.task, join_managed e (happens (take_out s id) (cancelled id m.task)) id m true)

unfoldable pub stop : Environment → PipelineSupervisor → ℕ → TaskResult × PipelineSupervisor
stop e s id = elim (get ℕ_discrete id s.pipelines) [
  | none ↦ (err (not_running id), s)
  | some m ↦ stop_managed e s id m
]

unfoldable pub is_timeout : TaskResult → Bool
is_timeout (err (stop_timeout id)) = true
is_timeout _ = false

-- The handle of a task that outlasts the timeout is aborted and awaited all the same.
unfoldable pub stop_in_time :
    Environment → PipelineSupervisor → ℕ → ManagedPipeline → TaskResult × PipelineSupervisor
stop_in_time e s id m =
    let asked = happens (take_out s id) (cancelled id m.task) in
    if e.times_out m.task
    then (
      err (stop_timeout id),
      record_finished e (happens (happens asked (aborted id m.task)) (joined id m.task)) id
          (err (stop_timeout id)) false,
    )
    else (e.outcome m.task, join_managed e asked id m (not (is_timeout (e.outcome m.task))))

unfoldable pub stop_with_timeout :
    Environment → PipelineSupervisor → ℕ → TaskResult × PipelineSupervisor
stop_with_timeout e s id = elim (get ℕ_discrete id s.pipelines) [
  | none ↦ (err (not_running id), s)
  | some m ↦ stop_in_time e s id m
]

unfoldable pub cancel_all : Assoc ℕ ManagedPipeline → PipelineSupervisor → PipelineSupervisor
cancel_all [] s = s
cancel_all ((id, m) ∷ ms) s = cancel_all ms (happens s (cancelled id m.task))

unfoldable pub join_all :
    Environment → Bool → Assoc ℕ ManagedPipeline → PipelineSupervisor → PipelineSupervisor
join_all e intentional_stop [] s = s
join_all e intentional_stop ((id, m) ∷ ms) s =
    join_all e intentional_stop ms (join_managed e s id m intentional_stop)

unfoldable pub first_error : Environment → Assoc ℕ ManagedPipeline → TaskResult
first_error e [] = ok tt
first_error e ((id, m) ∷ ms) =
    let rest = first_error e ms in elim (e.outcome m.task) [ ok u ↦ rest | err error ↦ err error ]

unfoldable pub stop_all : Environment → PipelineSupervisor → TaskResult × PipelineSupervisor
stop_all e s = (
  first_error e s.pipelines,
  join_all e true s.pipelines (cancel_all s.pipelines (record s { pipelines = [] })),
)

-- The pipelines whose tasks have finished (`true`) or not.
unfoldable pub with_finished :
    Environment → Bool → Assoc ℕ ManagedPipeline → Assoc ℕ ManagedPipeline
with_finished e b [] = []
with_finished e b ((id, m) ∷ ms) =
    let rest = with_finished e b ms in
    if e.is_finished m.task
    then if b then (id, m) ∷ rest else rest
    else if b
    then rest
    else (id, m) ∷ rest

unfoldable pub running : Environment → PipelineSupervisor → List ℕ
running e s = map (λ entry. entry.0) (with_finished e false s.pipelines)

-- The outcomes, and the supervisor that is left.
unfoldable pub reap_finished :
    Environment → PipelineSupervisor → List (ℕ × TaskResult) × PipelineSupervisor
reap_finished e s = (
  map (λ entry. (entry.0, e.outcome entry.1.task)) (with_finished e true s.pipelines),
  join_all e false (with_finished e true s.pipelines)
      (record s { pipelines = with_finished e false s.pipelines }),
)

pub data Call : Type 0 where
  start_call stop_call stop_with_timeout_call : ℕ → Call
  stop_all_call reap_call : Call

-- The calls in the order in which they take the lock, each with what it finds.
abbrev pub serve : PipelineSupervisor → Environment → Call → PipelineSupervisor
serve s e (start_call id) = (start e s id).1
serve s e (stop_call id) = (stop e s id).1
serve s e (stop_with_timeout_call id) = (stop_with_timeout e s id).1
serve s e stop_all_call = (stop_all e s).1
serve s e reap_call = (reap_finished e s).1

abbrev pub serve_all : PipelineSupervisor → List (Environment × Call) → PipelineSupervisor
serve_all s [] = s
serve_all s ((e, c) ∷ calls) = serve_all (serve s e c) calls
