-- ===== src/Examples/Metadata.antt =====
-- Instances of the theorems on the leases of crates/metadata/src/store.rs.
use etl_server_cloudberry.Prelude.{
  ℕ, pos, ◌<◌, ◌≡◌, ◌≢◌, refl, inr, some, [], ◌∷◌, text, ok, ℕ_discrete, arith,
}
use etl_server_cloudberry.Prelude.Assoc.{get, insert, remove}
use etl_server_cloudberry.Target.Checkpoint.{
  TargetMeta, NodeCheckpoint, inserted, activate_pipeline_fence, advance_node_checkpoint,
  database_generation, validate_fence, may_activate, set_fence,
}
use etl_server_cloudberry.Target.Checkpoint.History
use etl_server_cloudberry.Metadata.Lease.{
  PipelineLease, LeaseStore, try_acquire_lease, is_lease_duration, insert_lease, take_over,
  may_take, write_lease, renew_lease, release_lease,
}
use etl_server_cloudberry.Metadata.Lease.Tokens.{IsAcquired, acquire-IsAcquired}
use etl_server_cloudberry.Metadata.Lease.History.{acquire, release, serve_all, HasReached}
use etl_server_cloudberry.Metadata.Lease.Exclusive.{serve_all-IsForeign}
use etl_server_cloudberry.Metadata.Lease.Ownership.{
  fence_of, acquire-lt-acquire, superseded, handover-fenced_out,
}

-- Pipeline 7, whose lease has not been taken.
abbrev fresh : LeaseStore
fresh = record { pipelines = 7 ∷ []; leases = [] }

abbrev held : ℕ → ℕ → ℕ → LeaseStore
held holder_id token expires_at = record {
  pipelines = 7 ∷ [];
  leases =
      (7, record { holder_id = holder_id; fencing_token = token; expires_at = expires_at }) ∷ [];
}

abbrev lease_of : ℕ → ℕ → ℕ → PipelineLease
lease_of holder_id token expires_at = record {
  pipeline_id = 7;
  holder_id = holder_id;
  fencing_token = token;
  expires_at = expires_at;
}

-- Holder 1 takes the lease at 100 for 50; holder 2 takes it over at 200.
first_acquire :
    try_acquire_lease fresh 7 1 50 100 100 ≡ (ok (some (lease_of 1 1 150)), held 1 1 150)
unfolding try_acquire_lease is_lease_duration get insert_lease write_lease insert ℕ_discrete
first_acquire = refl

next_acquire :
    try_acquire_lease (serve_all (held 1 1 150) []) 7 2 50 200 200
    ≡ (ok (some (lease_of 2 2 250)), held 2 2 250)
unfolding try_acquire_lease serve_all is_lease_duration get take_over may_take write_lease insert
    ℕ_discrete remove
next_acquire = refl

abbrev no_meta : TargetMeta
no_meta = record { fences = []; checkpoints = [] }

next_activate :
    activate_pipeline_fence no_meta (fence_of (lease_of 2 2 250) 1)
    ≡ ok (record { fences = (7, (1, pos 2)) ∷ []; checkpoints = [] })
unfolding activate_pipeline_fence database_generation validate_fence may_activate get set_fence
    insert
next_activate = refl

abbrev at_300 : NodeCheckpoint
at_300 = record {
  key = record { pipeline_id = 7; topology_generation = 1; node_id = pos 0 };
  system_identifier = 42;
  timeline = 1;
  slot_name = text "slot";
  applied_lsn = 300;
}

held_row :
    get ℕ_discrete 7 (held 2 2 250).leases
    ≡ some (record { holder_id = 2; fencing_token = 2; expires_at = 250 })
unfolding get ℕ_discrete
held_row = refl

held_reached : HasReached 2 (get ℕ_discrete 7 (held 2 2 250).leases)
held_reached = rw held_row (omega arith)

acquire-IsAcquired_example : IsAcquired fresh (held 1 1 150) 7 1 50 100 100 (lease_of 1 1 150)
acquire-IsAcquired_example = acquire-IsAcquired fresh 7 1 50 100 100 first_acquire

acquire-lt-acquire_example : 1 < 2
acquire-lt-acquire_example =
    acquire-lt-acquire [] fresh 7 1 2 50 100 100 50 200 200 first_acquire next_acquire

superseded_example :
    ((renew_lease
        (serve_all (held 2 2 250) (release (lease_of 2 2 250) 210 ∷ []))
        (lease_of 1 1 150)
        50
        220
        220).0
      ≢ ok (some (lease_of 1 1 270)))
    × (release_lease
          (serve_all (held 2 2 250) (release (lease_of 2 2 250) 210 ∷ []))
          (lease_of 1 1 150)
          220
        ≡ serve_all (held 2 2 250) (release (lease_of 2 2 250) 210 ∷ []))
superseded_example =
    superseded (release (lease_of 2 2 250) 210 ∷ []) (held 2 2 250) (lease_of 1 1 150)
      (lease_of 1 1 270) 50 220 220 held_reached

handover-fenced_out_example :
    advance_node_checkpoint
      (History.serve_all (record { fences = (7, (1, pos 2)) ∷ []; checkpoints = [] }) [])
      (fence_of (lease_of 1 1 150) 1)
      at_300
    ≢ ok (inserted, no_meta)
handover-fenced_out_example =
    handover-fenced_out [] [] fresh no_meta 7 1 2 50 100 100 50 200 200 1 1 at_300 inserted no_meta
      first_acquire next_acquire next_activate

serve_all-IsForeign_example :
    get ℕ_discrete 7
      (serve_all
        (held 2 2 250)
        (acquire 7 1 50 220 220 ∷ release (lease_of 1 1 150) 230 ∷ [])).leases
    ≡ some (record { holder_id = 2; fencing_token = 2; expires_at = 250 })
serve_all-IsForeign_example =
    serve_all-IsForeign (acquire 7 1 50 220 220 ∷ release (lease_of 1 1 150) 230 ∷ [])
      (held 2 2 250) 7 (record { holder_id = 2; fencing_token = 2; expires_at = 250 }) held_row
      (inr ((λ e. absurd (omega arith)), omega arith), (inr (λ e. absurd (omega arith)), tt))
