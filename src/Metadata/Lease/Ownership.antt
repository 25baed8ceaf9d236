-- ===== src/Metadata/Lease/Ownership.antt =====
-- Owners of a pipeline over time: leases (crates/metadata/src/store.rs) together with the fences of
-- crates/target-cloudberry/src/checkpoint.rs.
use etl_server_cloudberry.Prelude.{
  ℕ, pos, ◌+◌, ◌≤◌, ◌<◌, ◌≡◌, ◌≢◌, refl, sym, subst, inl, inr, false, some, List, ok, arith, if_pos,
  ℕ_discrete, Option-cases,
}
use etl_server_cloudberry.Prelude.Assoc.{get}
use etl_server_cloudberry.Target.Checkpoint.{
  PipelineFence, TargetMeta, NodeCheckpoint, AdvanceOutcome, activate_pipeline_fence,
  advance_node_checkpoint,
}
use etl_server_cloudberry.Target.Checkpoint.Fence.{activate-IsActivated}
use etl_server_cloudberry.Target.Checkpoint.History.{fenced_out}
use etl_server_cloudberry.Target.Checkpoint.History
use etl_server_cloudberry.Metadata.Lease.{
  LeaseRow, PipelineLease, LeaseStore, try_acquire_lease, is_held_by, renew_row, renew_lease,
  release_row, release_lease,
}
use etl_server_cloudberry.Metadata.Lease.Tokens.{acquire-IsAcquired}
use etl_server_cloudberry.Metadata.Lease.History.{
  LeaseRequest, serve_all, HasReached, taken-HasReached, serve_all-HasReached,
}

acquired_reached :
    (s : LeaseStore) (p holder_id ttl written checked : ℕ) {l : PipelineLease} {s' : LeaseStore}
    → try_acquire_lease s p holder_id ttl written checked ≡ (ok (some l), s')
    → HasReached l.fencing_token (get ℕ_discrete p s'.leases)
acquired_reached s p holder_id ttl written checked {l} {s'} h =
    let a = acquire-IsAcquired s p holder_id ttl written checked h in
    rw (a.leases p, if_pos (ℕ_discrete p p) refl) (omega arith)

-- Of two acquisitions of a pipeline the later one has the higher token, whatever is asked of the
-- leases in between.
pub acquire-lt-acquire :
    (rs : List LeaseRequest) (s : LeaseStore) (p first_holder next_holder ttl written checked : ℕ)
    (next_ttl next_written next_checked : ℕ) {old next : PipelineLease} {s' s'' : LeaseStore}
    → try_acquire_lease s p first_holder ttl written checked ≡ (ok (some old), s')
    → try_acquire_lease (serve_all s' rs) p next_holder next_ttl next_written next_checked
      ≡ (ok (some next), s'')
    → old.fencing_token < next.fencing_token
acquire-lt-acquire rs s p first_holder next_holder ttl written checked next_ttl next_written
      next_checked {old} {next} {s'} h g =
    let a =
      acquire-IsAcquired (serve_all s' rs) p next_holder next_ttl next_written next_checked g in
    let reached =
      serve_all-HasReached rs s' p old.fencing_token
        (acquired_reached s p first_holder ttl written checked h) in
    taken-HasReached (get ℕ_discrete p (serve_all s' rs).leases) next_holder next_checked
      next.fencing_token old.fencing_token a.taken reached

not_held :
    (r : LeaseRow) (l : PipelineLease) → l.fencing_token < r.fencing_token → is_held_by r l ≡ false
unfolding is_held_by
not_held r l h = ground arith

renew_not_held :
    (s : LeaseStore) (l : PipelineLease) (ttl written checked : ℕ) (r : LeaseRow)
    {l' : PipelineLease}
    → get ℕ_discrete l.pipeline_id s.leases ≡ some r
    → is_held_by r l ≡ false
    → (renew_lease s l ttl written checked).0 ≢ ok (some l')
unfolding renew_lease renew_row
renew_not_held s l ttl written checked r at h e = ground arith

release_not_held :
    (s : LeaseStore) (l : PipelineLease) (written : ℕ) (r : LeaseRow)
    → get ℕ_discrete l.pipeline_id s.leases ≡ some r
    → is_held_by r l ≡ false
    → release_lease s l written ≡ s
unfolding release_lease release_row
release_not_held s l written r at h = ground arith

-- Once a pipeline's lease has a higher token, the lease with the lower one is never renewed, and
-- releasing it changes nothing, whatever is asked of the leases in between.
pub superseded :
    (rs : List LeaseRequest) (s : LeaseStore) (l renewed : PipelineLease) (ttl written checked : ℕ)
    → HasReached (l.fencing_token + 1) (get ℕ_discrete l.pipeline_id s.leases)
    → ((renew_lease (serve_all s rs) l ttl written checked).0 ≢ ok (some renewed))
      × (release_lease (serve_all s rs) l written ≡ serve_all s rs)
superseded rs s l renewed ttl written checked h =
    let s' = serve_all s rs in
    let reached = serve_all-HasReached rs s l.pipeline_id (l.fencing_token + 1) h in
    elim (Option-cases (get ℕ_discrete l.pipeline_id s'.leases)) [
      | inl e ↦ absurd (subst (HasReached (l.fencing_token + 1)) e reached)
      | inr (r, e) ↦
          let le : l.fencing_token + 1 ≤ r.fencing_token =
            subst (HasReached (l.fencing_token + 1)) e reached in
          let free = not_held r l (omega arith) in
          (renew_not_held s' l ttl written checked r e free, release_not_held s' l written r e free)
    ]

abbrev pub fence_of : PipelineLease → ℕ → PipelineFence
fence_of l generation = record {
  pipeline_id = l.pipeline_id;
  topology_generation = generation;
  fencing_token = pos l.fencing_token;
}

-- When the lease of a pipeline has passed to a later acquisition, and that owner has activated its
-- fence in the target, the fence of the earlier lease never advances a checkpoint again, whatever
-- all owners ask of the leases and of the target in between.
pub handover-fenced_out :
    (rs : List LeaseRequest) (qs : List History.Request) (s : LeaseStore) (m : TargetMeta)
    (p first_holder next_holder ttl written checked next_ttl next_written next_checked : ℕ)
    (generation old_generation : ℕ) (c : NodeCheckpoint) (o : AdvanceOutcome) (m'' : TargetMeta)
    {old next : PipelineLease} {s' s'' : LeaseStore} {m' : TargetMeta}
    → try_acquire_lease s p first_holder ttl written checked ≡ (ok (some old), s')
    → try_acquire_lease (serve_all s' rs) p next_holder next_ttl next_written next_checked
      ≡ (ok (some next), s'')
    → activate_pipeline_fence m (fence_of next generation) ≡ ok m'
    → advance_node_checkpoint (History.serve_all m' qs) (fence_of old old_generation) c
      ≢ ok (o, m'')
handover-fenced_out rs qs s m p first_holder next_holder ttl written checked next_ttl next_written
      next_checked generation old_generation c o m'' {old} {next} {s'} {s''} {m'} h g f =
    let lt =
      acquire-lt-acquire rs s p first_holder next_holder ttl written checked next_ttl next_written
        next_checked h g in
    let a = acquire-IsAcquired s p first_holder ttl written checked h in
    let b =
      acquire-IsAcquired (serve_all s' rs) p next_holder next_ttl next_written next_checked g in
    let force = activate-IsActivated m (fence_of next generation) f in
    let at : get ℕ_discrete old.pipeline_id m'.fences ≡ some (generation, pos next.fencing_token) =
      rw (a.pipeline, sym b.pipeline) force.in_force in
    fenced_out qs m' (fence_of old old_generation) c (rw at (omega arith)) o m''
