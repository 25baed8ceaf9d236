-- ===== src/Examples/Supervisor.antt =====
-- Instances of the theorems on crates/engine/src/supervisor.rs.
use etl_server_cloudberry.Prelude.{
  ◌≡◌, refl, true, false, some, List, [], ◌∷◌, ok, ◌==◌, ℕ_discrete,
}
use etl_server_cloudberry.Prelude.Assoc.{get, insert, remove}
use etl_server_cloudberry.Engine.Telemetry.{running}
use etl_server_cloudberry.Engine.Supervisor.{
  Environment, Call, start_call, reap_call, stop_with_timeout_call, new_supervisor, serve_all,
  happens, telemetry_for, is_broken, finish_mark, record_finished, join_managed, spawn, start_new,
  start_over, start, stop_managed, stop, is_timeout, stop_in_time, stop_with_timeout, join_all,
  with_finished, reap_finished,
}
use etl_server_cloudberry.Engine.Supervisor.Steps.{was_spawned, was_joined}
use etl_server_cloudberry.Engine.Supervisor.Owned.{serve_all-owns}

-- The first task ends by itself, and the second one does not end in time.
abbrev world : Environment
world = record {
  is_finished = λ task. task == 0;
  outcome = λ task. ok tt;
  times_out = λ task. task == 1;
  state = λ task. running;
}

abbrev some_calls : List (Environment × Call)
some_calls =
    (world, start_call 7)
    ∷ (world, start_call 8)
    ∷ (world, start_call 7)
    ∷ (world, reap_call)
    ∷ (world, stop_with_timeout_call 8)
    ∷ (world, start_call 7)
    ∷ []

last_spawned : was_spawned 7 2 (serve_all new_supervisor some_calls).log ≡ true
unfolding happens telemetry_for is_broken finish_mark record_finished join_managed spawn start_new
    start_over start stop_managed stop is_timeout stop_in_time stop_with_timeout join_all
    with_finished reap_finished was_spawned was_joined get insert remove ℕ_discrete
last_spawned = refl

last_not_joined : was_joined 7 2 (serve_all new_supervisor some_calls).log ≡ false
unfolding happens telemetry_for is_broken finish_mark record_finished join_managed spawn start_new
    start_over start stop_managed stop is_timeout stop_in_time stop_with_timeout join_all
    with_finished reap_finished was_spawned was_joined get insert remove ℕ_discrete
last_not_joined = refl

serve_all-owns_example :
    get ℕ_discrete 7 (serve_all new_supervisor some_calls).pipelines ≡ some (record { task = 2 })
serve_all-owns_example = serve_all-owns some_calls 7 2 last_spawned last_not_joined
