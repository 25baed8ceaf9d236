-- ===== src/Target/Apply/Executed.antt =====
-- Transactions of crates/target-cloudberry/src/apply.rs, one alone and in sequences with activations
-- of fences by any owners.
use etl_server_cloudberry.Prelude.{
  ◌≡◌, ◌≢◌, ap, ◌∙◌, inl, inr, List, [], ◌∷◌, Result-cases, bind_ok, then_ok, ok_inj, ok, err,
  ℕ_discrete, Result,
}
use etl_server_cloudberry.Prelude.Assoc.{get}
use etl_server_cloudberry.Target.Checkpoint.{
  PipelineFence, TargetMeta, CheckpointError, Checked, activate_pipeline_fence, lock_pipeline_fence,
  advance_node_checkpoint,
}
use etl_server_cloudberry.Target.Checkpoint.Fence.{IsPast, lock-IsPast, activate-IsPast}
use etl_server_cloudberry.Target.Checkpoint.Advance.{advance-IsAdvanced}
use etl_server_cloudberry.Target.Apply.{
  ApplyOutcome, ApplyRequest, ApplyResult, Database, validate_request, apply_tables, no_counts,
  execute_apply, of_checkpoint,
}

of_checkpoint_ok :
    {A : Type 0} (r : Result CheckpointError A) {a : A} → of_checkpoint r ≡ ok a → r ≡ ok a
of_checkpoint_ok (ok a) h = ap ok (ok_inj h)
of_checkpoint_ok (err e) h = absurd (cc)

module _ {D : Type 0} (db : Database D) where
  -- A committed transaction: the fence was in force, the staged rows were applied table by table, and
  -- the checkpoint was advanced.
  pub record IsApplied (m m' : TargetMeta) (d d' : D) (request : ApplyRequest)
      (outcome : ApplyOutcome) : Type 0 where
    pub locked : lock_pipeline_fence m request.fence ≡ ok tt
    pub advanced :
        advance_node_checkpoint m request.fence request.checkpoint ≡ ok (outcome.checkpoint, m')
    pub changed : D
    pub applied : apply_tables db request.tables no_counts d ≡ ok (outcome.counts, changed)
    pub committed : db.commit changed ≡ ok d'

  pub execute_apply-IsApplied :
      (m m' : TargetMeta) (d d' : D) (request : ApplyRequest) (outcome : ApplyOutcome)
      → execute_apply db m d request ≡ ok (outcome, (m', d'))
      → IsApplied m m' d d' request outcome
  unfolding execute_apply
  execute_apply-IsApplied m m' d d' request outcome h =
      let (valid, h1) = then_ok (validate_request request) h in
      let (locked, h2) = then_ok (of_checkpoint (lock_pipeline_fence m request.fence)) h1 in
      let (applied, a, h3) = bind_ok (apply_tables db request.tables no_counts d) h2 in
      let (advanced, b, h4) =
        bind_ok (of_checkpoint (advance_node_checkpoint m request.fence request.checkpoint)) h3 in
      let (committed, c, h5) = bind_ok (db.commit applied.1) h4 in
      let same = ok_inj h5 in
      record {
        locked = of_checkpoint_ok (lock_pipeline_fence m request.fence) locked;
        advanced =
            of_checkpoint_ok (advance_node_checkpoint m request.fence request.checkpoint) b
            ∙ ap (λ x. ok (x.0.checkpoint, x.1.0)) same;
        changed = applied.1;
        applied = a ∙ ap (λ x. ok (x.0.counts, applied.1)) same;
        committed = c ∙ ap (λ x. ok x.1.1) same;
      }

  -- What an owner asks of the target; a transaction that fails has rolled back.
  pub data Request : Type 0 where
    activate : PipelineFence → Request
    apply : ApplyRequest → Request

  abbrev State : Type 0
  State = TargetMeta × D

  after_activate : State → Checked TargetMeta → State
  after_activate s (ok m') = (m', s.1)
  after_activate s (err e) = s

  after_apply : State → ApplyResult (ApplyOutcome × (TargetMeta × D)) → State
  after_apply s (ok (o, s')) = s'
  after_apply s (err e) = s

  pub serve : State → Request → State
  serve s (activate f) = after_activate s (activate_pipeline_fence s.0 f)
  serve s (apply request) = after_apply s (execute_apply db s.0 s.1 request)

  pub serve_all : State → List Request → State
  serve_all s [] = s
  serve_all s (r ∷ rs) = serve_all (serve s r) rs

  serve-IsPast :
      (s : State) (r : Request) (f : PipelineFence)
      → IsPast (get ℕ_discrete f.pipeline_id s.0.fences) f
      → IsPast (get ℕ_discrete f.pipeline_id (serve s r).0.fences) f
  unfolding serve after_activate after_apply
  serve-IsPast s (activate g) f past = elim (Result-cases (activate_pipeline_fence s.0 g)) [
    | inl (m', e) ↦ rw e (activate-IsPast s.0 g f e past)
    | inr (x, e) ↦ rw e past
  ]
  serve-IsPast s (apply request) f past = elim (Result-cases (execute_apply db s.0 s.1 request)) [
    | inl ((o, (m', d')), e) ↦
        let a = execute_apply-IsApplied s.0 m' s.1 d' request o e in
        rw (e, (advance-IsAdvanced s.0 request.fence request.checkpoint a.advanced).fences) past
    | inr (x, e) ↦ rw e past
  ]

  -- Once a pipeline's fence was activated with a higher token, no transaction of an owner with the
  -- lower one commits again, neither its rows nor its checkpoint, whatever fences all owners activate
  -- and whatever transactions they apply in between.
  pub execute_apply-fenced_out :
      (rs : List Request) (s : State) (request : ApplyRequest)
      → IsPast (get ℕ_discrete request.fence.pipeline_id s.0.fences) request.fence
      → (committed : ApplyOutcome × State)
      → execute_apply db (serve_all s rs).0 (serve_all s rs).1 request ≢ ok committed
  unfolding serve_all
  execute_apply-fenced_out [] s request past (o, (m', d')) h =
      lock-IsPast s.0 request.fence past (execute_apply-IsApplied s.0 m' s.1 d' request o h).locked
  execute_apply-fenced_out (r ∷ rs) s request past committed h =
      execute_apply-fenced_out rs (serve s r) request (serve-IsPast s r request.fence past)
        committed h
