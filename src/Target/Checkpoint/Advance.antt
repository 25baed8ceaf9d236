-- ===== src/Target/Checkpoint/Advance.antt =====
-- One advance of a checkpoint (crates/target-cloudberry/src/checkpoint.rs).
use etl_server_cloudberry.Prelude.{
  ◌≤◌, ◌≡◌, refl, inl, inr, ◌⊎◌, true, ite, Option, none, some, ok, arith, ℕ_discrete,
}
use etl_server_cloudberry.Prelude.Assoc.{get, insert, get-insert, get-insert_self}
use etl_server_cloudberry.Target.Checkpoint.{
  PipelineFence, TargetMeta, CheckpointKey, CheckpointKey-discrete, NodeCheckpoint,
  StoredNodeCheckpoint, AdvanceOutcome, inserted, unchanged, advanced, validate_checkpoint,
  lock_pipeline_fence, is_same_identity, ensure_same_identity, compare_lsn, check_advance,
  write_outcome, insert_checkpoint, update_checkpoint, is_fence_key, advance_node_checkpoint,
}
use etl_server_cloudberry.Target.Checkpoint.Fence.{lock-inversion}

is_same_identity-eq :
    (a b : NodeCheckpoint)
    → is_same_identity a b ≡ true
    → record a { applied_lsn = b.applied_lsn } ≡ b
unfolding is_same_identity
is_same_identity-eq a b h = ground arith

pub advance-inversion :
    (m : TargetMeta) (f : PipelineFence) (c : NodeCheckpoint) {o : AdvanceOutcome} {m' : TargetMeta}
    → advance_node_checkpoint m f c ≡ ok (o, m')
    → let existing = get CheckpointKey-discrete c.key m.checkpoints in
      (validate_checkpoint c ≡ ok tt)
      × (is_fence_key c f ≡ true)
      × (lock_pipeline_fence m f ≡ ok tt)
      × (check_advance existing c ≡ ok o)
      × (m' ≡ (write_outcome m f c existing o).1)
unfolding advance_node_checkpoint
advance-inversion m f c h = ground arith

check_advance-none :
    (c : NodeCheckpoint) {o : AdvanceOutcome} → check_advance none c ≡ ok o → o ≡ inserted
unfolding check_advance
check_advance-none c h = ground arith

check_advance-some :
    (s : StoredNodeCheckpoint) (c : NodeCheckpoint) {o : AdvanceOutcome}
    → check_advance (some s) c ≡ ok o
    → (is_same_identity s.checkpoint c ≡ true)
      × (s.checkpoint.applied_lsn ≤ c.applied_lsn)
      × ((o ≡ unchanged) ⊎ (o ≡ advanced s.checkpoint.applied_lsn))
unfolding check_advance ensure_same_identity compare_lsn
check_advance-some s c h = ground arith

-- A stored checkpoint has the identity of the new one, and is not ahead of it.
abbrev pub Precedes : Option StoredNodeCheckpoint → NodeCheckpoint → Type 0
Precedes none c = Unit {0}
Precedes (some s) c =
    (is_same_identity s.checkpoint c ≡ true) × (s.checkpoint.applied_lsn ≤ c.applied_lsn)

check_advance-Precedes :
    (row : Option StoredNodeCheckpoint) (c : NodeCheckpoint) {o : AdvanceOutcome}
    → check_advance row c ≡ ok o
    → Precedes row c
check_advance-Precedes none c h = tt
check_advance-Precedes (some s) c h = let r = check_advance-some s c h in (r.0, r.1)

-- What a successful advance has done.
pub record IsAdvanced (m m' : TargetMeta) (f : PipelineFence) (c : NodeCheckpoint) : Type 0 where
  pub held : get ℕ_discrete f.pipeline_id m.fences ≡ some (f.topology_generation, f.fencing_token)
  pub stored :
      get CheckpointKey-discrete c.key m'.checkpoints
      ≡ some (record { checkpoint = c; fencing_token = f.fencing_token })
  pub forward : Precedes (get CheckpointKey-discrete c.key m.checkpoints) c
  pub checkpoints :
      (k : CheckpointKey)
      → get CheckpointKey-discrete k m'.checkpoints
        ≡ ite
            (CheckpointKey-discrete c.key k)
            (some (record { checkpoint = c; fencing_token = f.fencing_token }))
            (get CheckpointKey-discrete k m.checkpoints)
  pub fences : m'.fences ≡ m.fences

write_outcome-eq :
    (m : TargetMeta) (f : PipelineFence) (c : NodeCheckpoint) (s : Option StoredNodeCheckpoint)
    {o : AdvanceOutcome}
    → check_advance s c ≡ ok o
    → (write_outcome m f c s o).1 ≡ record m {
      checkpoints =
          insert CheckpointKey-discrete c.key
            (record { checkpoint = c; fencing_token = f.fencing_token })
            m.checkpoints;
    }
write_outcome-eq m f c none h =
    rw (check_advance-none c h) (unfold write_outcome insert_checkpoint in refl)
write_outcome-eq m f c (some s) {o} h =
    let (same, le, which) = check_advance-some s c h in
    let e = is_same_identity-eq s.checkpoint c same in
    elim which [
      | inl e' ↦ rw e' (unfold write_outcome update_checkpoint in rw e refl)
      | inr e' ↦ rw e' (unfold write_outcome update_checkpoint in rw e refl)
    ]

-- An advance that succeeds was made by the holder of the fence. It stores the checkpoint with the
-- holder's token, never moves a position back nor changes the source identity, and leaves the other
-- checkpoints and all fences alone.
pub advance-IsAdvanced :
    (m : TargetMeta) (f : PipelineFence) (c : NodeCheckpoint) {o : AdvanceOutcome} {m' : TargetMeta}
    → advance_node_checkpoint m f c ≡ ok (o, m')
    → IsAdvanced m m' f c
advance-IsAdvanced m f c {o} {m'} h =
    let (valid, fits, locked, checked, e) = advance-inversion m f c h in
    let existing = get CheckpointKey-discrete c.key m.checkpoints in
    rw (e, write_outcome-eq m f c existing checked)
      (record {
        held = lock-inversion m f locked;
        stored = get-insert_self CheckpointKey-discrete c.key _ m.checkpoints;
        forward = check_advance-Precedes existing c checked;
        checkpoints = λ k.
            get-insert CheckpointKey-discrete c.key k
              (record { checkpoint = c; fencing_token = f.fencing_token }) m.checkpoints;
        fences = refl;
      })

pub is_same_identity_refl : (c : NodeCheckpoint) → is_same_identity c c ≡ true
unfolding is_same_identity
is_same_identity_refl c = ground arith
