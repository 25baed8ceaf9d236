-- ===== src/Examples/Target.antt =====
-- Instances of the theorems on crates/target-cloudberry/src/checkpoint.rs.
use etl_server_cloudberry.Prelude.{
  ℕ, pos, ◌≤◌, ◌≡◌, ◌≢◌, refl, true, some, [], ◌∷◌, text, ok, ℕ_discrete, ℤ_discrete,
  Bytes-discrete, arith,
}
use etl_server_cloudberry.Prelude.Assoc.{get, insert, remove}
use etl_server_cloudberry.Target.Checkpoint.{
  PipelineFence, TargetMeta, CheckpointKey, CheckpointKey-discrete, NodeCheckpoint,
  StoredNodeCheckpoint, advanced, unchanged, activate_pipeline_fence, set_fence,
  advance_node_checkpoint, checkpoint_reached, database_generation, validate_fence, may_activate,
  validate_checkpoint, is_fence_key, lock_pipeline_fence, check_fence, is_current_fence,
  check_advance, ensure_same_identity, is_same_identity, compare_lsn, write_outcome,
  update_checkpoint, ensure_one_row,
}
use etl_server_cloudberry.Target.Checkpoint.Fence.{IsPast, IsActivated, activate-IsActivated}
use etl_server_cloudberry.Target.Checkpoint.Advance.{IsAdvanced, advance-IsAdvanced}
use etl_server_cloudberry.Target.Checkpoint.History.{
  activate, advance, serve_all, fenced_out, serve_all-keeps, advance_again,
}

abbrev pub fence_with : ℕ → PipelineFence
fence_with token = record { pipeline_id = 7; topology_generation = 1; fencing_token = pos token }

abbrev pub node_key : CheckpointKey
node_key = record { pipeline_id = 7; topology_generation = 1; node_id = pos 0 }

abbrev pub checkpoint_at : ℕ → NodeCheckpoint
checkpoint_at lsn = record {
  key = node_key;
  system_identifier = 42;
  timeline = 1;
  slot_name = text "slot";
  applied_lsn = lsn;
}

abbrev pub stored_at : ℕ → ℕ → StoredNodeCheckpoint
stored_at lsn token = record { checkpoint = checkpoint_at lsn; fencing_token = pos token }

-- Token 2 is in force, and the node stands at 100.
abbrev pub at_100 : TargetMeta
at_100 = record { fences = (7, (1, pos 2)) ∷ []; checkpoints = (node_key, stored_at 100 2) ∷ [] }

abbrev pub at_200 : TargetMeta
at_200 = record { fences = (7, (1, pos 2)) ∷ []; checkpoints = (node_key, stored_at 200 2) ∷ [] }

at_100_fence : get ℕ_discrete 7 at_100.fences ≡ some (1, pos 2)
unfolding get ℕ_discrete
at_100_fence = refl

at_100_row : get CheckpointKey-discrete node_key at_100.checkpoints ≡ some (stored_at 100 2)
unfolding get CheckpointKey-discrete ℕ_discrete
at_100_row = refl

-- The owner of token 2 advances from 100 to 200.
pub at_100_advance :
    advance_node_checkpoint at_100 (fence_with 2) (checkpoint_at 200) ≡ ok (advanced 100, at_200)
unfolding advance_node_checkpoint validate_checkpoint database_generation text is_fence_key
    lock_pipeline_fence validate_fence check_fence get ℕ_discrete is_current_fence ℤ_discrete
    check_advance CheckpointKey-discrete ensure_same_identity is_same_identity compare_lsn
    write_outcome update_checkpoint ensure_one_row Bytes-discrete insert remove
at_100_advance = refl

at_100_activate :
    activate_pipeline_fence at_100 (fence_with 3) ≡ ok (set_fence at_100 (fence_with 3))
unfolding activate_pipeline_fence database_generation validate_fence may_activate get ℕ_discrete
at_100_activate = refl

pub at_100-IsPast : IsPast (get ℕ_discrete 7 at_100.fences) (fence_with 1)
at_100-IsPast = rw at_100_fence (omega arith)

fenced_out_example :
    (advance_node_checkpoint
        (serve_all at_100
          (activate (fence_with 1) ∷ advance (fence_with 2) (checkpoint_at 200) ∷ []))
        (fence_with 1)
        (checkpoint_at 300)
      ≢ ok (advanced 200, at_200))
fenced_out_example =
    fenced_out (activate (fence_with 1) ∷ advance (fence_with 2) (checkpoint_at 200) ∷ []) at_100
      (fence_with 1) (checkpoint_at 300) at_100-IsPast (advanced 200) at_200

advance-IsAdvanced_example : IsAdvanced at_100 at_200 (fence_with 2) (checkpoint_at 200)
advance-IsAdvanced_example =
    advance-IsAdvanced at_100 (fence_with 2) (checkpoint_at 200) at_100_advance

serve_all-keeps_example :
    (s : StoredNodeCheckpoint) × (get CheckpointKey-discrete node_key
        (serve_all at_100 (advance (fence_with 2) (checkpoint_at 200) ∷ [])).checkpoints
      ≡ some s)
    × (100 ≤ s.checkpoint.applied_lsn)
serve_all-keeps_example =
    serve_all-keeps (advance (fence_with 2) (checkpoint_at 200) ∷ []) at_100 node_key
      (stored_at 100 2) at_100_row

advance_again_example :
    (m : TargetMeta) × (advance_node_checkpoint at_200 (fence_with 2) (checkpoint_at 200)
      ≡ ok (unchanged, m))
    × (get CheckpointKey-discrete node_key m.checkpoints
        ≡ get CheckpointKey-discrete node_key at_200.checkpoints)
    × (checkpoint_reached
          (get CheckpointKey-discrete node_key at_200.checkpoints)
          (checkpoint_at 200)
        ≡ ok true)
advance_again_example = advance_again at_100 (fence_with 2) (checkpoint_at 200) at_100_advance

activate-IsActivated_example : IsActivated at_100 (set_fence at_100 (fence_with 3)) (fence_with 3)
activate-IsActivated_example = activate-IsActivated at_100 (fence_with 3) at_100_activate
