-- ===== src/Target/Checkpoint/History.antt =====
-- Sequences of activations and advances (crates/target-cloudberry/src/checkpoint.rs) by any owners,
-- and retries of an advance.
use etl_server_cloudberry.Prelude.{
  Result-cases, ◌≤◌, ◌≡◌, ◌≢◌, refl, sym, subst, true, some, List, [], ◌∷◌, ok, err, arith,
  ℕ_discrete, if_neg, inl, inr, ◌∙◌,
}
use etl_server_cloudberry.Prelude.Assoc.{get}
use etl_server_cloudberry.Target.Checkpoint.{
  PipelineFence, TargetMeta, CheckpointKey, CheckpointKey-discrete, NodeCheckpoint,
  StoredNodeCheckpoint, AdvanceOutcome, unchanged, Checked, activate_pipeline_fence,
  validate_checkpoint, lock_pipeline_fence, ensure_same_identity, compare_lsn, check_advance,
  ensure_one_row, write_outcome, update_checkpoint, is_fence_key, advance_node_checkpoint,
  checkpoint_reached,
}
use etl_server_cloudberry.Target.Checkpoint.Fence.{
  IsPast, activate-IsActivated, lock-IsPast, activate-IsPast,
}
use etl_server_cloudberry.Target.Checkpoint.Advance.{
  Precedes, advance-IsAdvanced, advance-inversion, is_same_identity_refl,
}

-- What an owner asks of the target; a request that fails has rolled back.
pub data Request : Type 0 where
  activate : PipelineFence → Request
  advance : PipelineFence → NodeCheckpoint → Request

abbrev after_activate : TargetMeta → Checked TargetMeta → TargetMeta
after_activate m (ok m') = m'
after_activate m (err e) = m

abbrev after_advance : TargetMeta → Checked (AdvanceOutcome × TargetMeta) → TargetMeta
after_advance m (ok (o, m')) = m'
after_advance m (err e) = m

pub serve : TargetMeta → Request → TargetMeta
serve m (activate f) = after_activate m (activate_pipeline_fence m f)
serve m (advance f c) = after_advance m (advance_node_checkpoint m f c)

pub serve_all : TargetMeta → List Request → TargetMeta
serve_all m [] = m
serve_all m (r ∷ rs) = serve_all (serve m r) rs

serve-IsPast :
    (m : TargetMeta) (r : Request) (f : PipelineFence)
    → IsPast (get ℕ_discrete f.pipeline_id m.fences) f
    → IsPast (get ℕ_discrete f.pipeline_id (serve m r).fences) f
unfolding serve
serve-IsPast m (activate g) f past = elim (Result-cases (activate_pipeline_fence m g)) [
  | inl (m', e) ↦ rw e (activate-IsPast m g f e past)
  | inr (x, e) ↦ rw e past
]
serve-IsPast m (advance g c) f past = elim (Result-cases (advance_node_checkpoint m g c)) [
  | inl ((o, m'), e) ↦ rw (e, (advance-IsAdvanced m g c e).fences) past
  | inr (x, e) ↦ rw e past
]

-- Once a pipeline's fence was activated with a higher token, an owner with the lower one never
-- advances a checkpoint again, whatever all owners ask of the target in between.
pub fenced_out :
    (rs : List Request) (m : TargetMeta) (f : PipelineFence) (c : NodeCheckpoint)
    → IsPast (get ℕ_discrete f.pipeline_id m.fences) f
    → (o : AdvanceOutcome) (m' : TargetMeta)
    → advance_node_checkpoint (serve_all m rs) f c ≢ ok (o, m')
unfolding serve_all
fenced_out [] m f c past o m' h = lock-IsPast m f past (advance-inversion m f c h).2
fenced_out (r ∷ rs) m f c past o m' h =
    fenced_out rs (serve m r) f c (serve-IsPast m r f past) o m' h

pub serve-keeps :
    (m : TargetMeta) (r : Request) (k : CheckpointKey) (s : StoredNodeCheckpoint)
    → get CheckpointKey-discrete k m.checkpoints ≡ some s
    → (s' : StoredNodeCheckpoint) × (get CheckpointKey-discrete k (serve m r).checkpoints ≡ some s')
      × (s.checkpoint.applied_lsn ≤ s'.checkpoint.applied_lsn)
unfolding serve
serve-keeps m (activate g) k s at = elim (Result-cases (activate_pipeline_fence m g)) [
  | inl (m', e) ↦ (s, rw (e, (activate-IsActivated m g e).checkpoints) at, omega arith)
  | inr (x, e) ↦ (s, rw e at, omega arith)
]
serve-keeps m (advance g c) k s at = elim (Result-cases (advance_node_checkpoint m g c)) [
  | inr (x, e) ↦ (s, rw e at, omega arith)
  | inl ((o, m'), e) ↦
      let a = advance-IsAdvanced m g c e in
      elim (CheckpointKey-discrete c.key k) [
        | no other ↦ (
          s,
          rw e (a.checkpoints k ∙ if_neg (CheckpointKey-discrete c.key k) other _ _ ∙ at),
          omega arith,
        )
        | yes same ↦ (
          record { checkpoint = c; fencing_token = g.fencing_token },
          rw e (
              subst
                (λ (x : CheckpointKey).
                  get CheckpointKey-discrete x m'.checkpoints
                  ≡ some (record { checkpoint = c; fencing_token = g.fencing_token }))
                same a.stored),
          (subst (λ x. Precedes x c)
              (subst (λ (x : CheckpointKey). get CheckpointKey-discrete x m.checkpoints ≡ some s)
                (sym same) at)
              a.forward).1,
        )
      ]
]

-- A checkpoint that is stored for a node is never lost and its position never moves back, whatever
-- the owners of all pipelines ask of the target.
pub serve_all-keeps :
    (rs : List Request) (m : TargetMeta) (k : CheckpointKey) (s : StoredNodeCheckpoint)
    → get CheckpointKey-discrete k m.checkpoints ≡ some s
    → (s' : StoredNodeCheckpoint) × (get CheckpointKey-discrete k (serve_all m rs).checkpoints
        ≡ some s')
      × (s.checkpoint.applied_lsn ≤ s'.checkpoint.applied_lsn)
unfolding serve_all
serve_all-keeps [] m k s at = (s, at, omega arith)
serve_all-keeps (r ∷ rs) m k s at =
    let (t, here, le) = serve-keeps m r k s at in
    let (u, there, le') = serve_all-keeps rs (serve m r) k t here in (u, there, omega arith)

again :
    (m : TargetMeta) (f : PipelineFence) (c : NodeCheckpoint) (s : StoredNodeCheckpoint)
    → s.checkpoint ≡ c
    → get CheckpointKey-discrete c.key m.checkpoints ≡ some s
    → validate_checkpoint c ≡ ok tt
    → is_fence_key c f ≡ true
    → lock_pipeline_fence m f ≡ ok tt
    → (advance_node_checkpoint m f c ≡ ok (unchanged, (update_checkpoint m f c (some s)).1))
      × (checkpoint_reached (some s) c ≡ ok true)
unfolding advance_node_checkpoint check_advance ensure_same_identity compare_lsn ensure_one_row
    write_outcome update_checkpoint checkpoint_reached validate_checkpoint
again m f c s e at valid fits locked =
    (ground (arith, is_same_identity_refl c), ground (arith, is_same_identity_refl c))

lock_same :
    (m m' : TargetMeta) (f : PipelineFence)
    → m'.fences ≡ m.fences
    → lock_pipeline_fence m' f ≡ lock_pipeline_fence m f
unfolding lock_pipeline_fence
lock_same m m' f e = rw e refl

-- Repeating a successful advance succeeds, reports no change and stores the same checkpoint; the
-- required position counts as reached. So a lost response can be retried.
pub advance_again :
    (m : TargetMeta) (f : PipelineFence) (c : NodeCheckpoint) {o : AdvanceOutcome} {m' : TargetMeta}
    → advance_node_checkpoint m f c ≡ ok (o, m')
    → (m'' : TargetMeta) × (advance_node_checkpoint m' f c ≡ ok (unchanged, m''))
      × (get CheckpointKey-discrete c.key m''.checkpoints
          ≡ get CheckpointKey-discrete c.key m'.checkpoints)
      × (checkpoint_reached (get CheckpointKey-discrete c.key m'.checkpoints) c ≡ ok true)
advance_again m f c {o} {m'} h =
    let (valid, fits, locked, checked, e) = advance-inversion m f c h in
    let a = advance-IsAdvanced m f c h in
    let s : StoredNodeCheckpoint = record { checkpoint = c; fencing_token = f.fencing_token } in
    let r = again m' f c s refl a.stored valid fits (lock_same m m' f a.fences ∙ locked) in
    let b = advance-IsAdvanced m' f c r.0 in (_, r.0, b.stored ∙ sym a.stored, rw a.stored r.1)
