-- ===== src/Engine/Cloudberry/Delivery.antt =====
-- What a batch that the sink of crates/engine/src/adapters/cloudberry.rs applied has done in the
-- target, over crates/target-cloudberry/src/apply.rs and checkpoint.rs.
use etl_server_cloudberry.Prelude.{
  ok_or-some, last?-eq_some, ◌++◌, ◌∙◌, ap, ◌≡◌, refl, sym, subst, some, List, [], ◌∷◌, All,
  bind_ok, then_ok, ok_inj, ok_or, ok, err, Result, Text,
}
use etl_server_cloudberry.Core.Change.{SourceTransaction}
use etl_server_cloudberry.Engine.Batch.{TransactionBatch, final_transaction}
use etl_server_cloudberry.Target.Checkpoint.{TargetMeta, PipelineFence}
use etl_server_cloudberry.Target.Checkpoint.Advance.{IsAdvanced, advance-IsAdvanced}
use etl_server_cloudberry.Target.Apply.{
  ApplyRequest, ApplyError, Database, execute_apply, no_counts, TableApplyBatch,
}
use etl_server_cloudberry.Target.Checkpoint.{NodeCheckpoint}
use etl_server_cloudberry.Target.Apply.Statements.{AllApplied, apply_tables-AllApplied}
use etl_server_cloudberry.Engine.Cloudberry.Groups.{rows_of, batch_rows, changes_at, IsOrdered}
use etl_server_cloudberry.Engine.Cloudberry.Grouping.{group_batch-content}
use etl_server_cloudberry.Engine.Cloudberry.Staged.{IsStaged, build_tables-IsStaged}
use etl_server_cloudberry.Target.Apply.Executed.{execute_apply-IsApplied}
use etl_server_cloudberry.Engine.Cloudberry.{
  Grouped, TableKey, panic, of_apply, DdlScope, reject_schema_barriers, group_batch, build_tables,
  checkpoint_at, build_apply_request_scoped, CloudberryTransactionSink, apply, TableBindingRegistry,
}
use etl_server_cloudberry.Engine.Cloudberry.Quiet.{
  IsQuietTransaction, reject_schema_barriers-IsQuiet,
}

-- A request that was built for a batch.
record IsBuilt (fence : PipelineFence) (slot_name : Text) (registry : TableBindingRegistry)
    (scope : DdlScope) (batch : TransactionBatch) (request : ApplyRequest) : Type 0 where
  quiet : All (IsQuietTransaction scope) batch.transactions
  grouped : build_tables registry (group_batch [] batch.transactions) ≡ ok request.tables
  fenced : request.fence ≡ fence
  final : SourceTransaction
  is_final : final_transaction batch ≡ some final
  checkpointed : request.checkpoint ≡ checkpoint_at fence slot_name final.final_position

build_apply_request-IsBuilt :
    (fence : PipelineFence) (slot_name : Text) (registry : TableBindingRegistry) (scope : DdlScope)
    (batch : TransactionBatch) (request : ApplyRequest)
    → build_apply_request_scoped fence slot_name registry scope batch ≡ ok request
    → IsBuilt fence slot_name registry scope batch request
unfolding build_apply_request_scoped
build_apply_request-IsBuilt fence slot_name registry scope batch request h =
    let (q, h1) = then_ok (reject_schema_barriers scope batch.transactions) h in
    let (tables, g, h2) = bind_ok (build_tables registry (group_batch [] batch.transactions)) h1 in
    let (final, f, h3) = bind_ok (ok_or panic (final_transaction batch)) h2 in
    let same = ok_inj h3 in
    record {
      quiet = reject_schema_barriers-IsQuiet scope batch.transactions q;
      grouped = g ∙ ap (λ r. ok r.tables) same;
      fenced = sym (ap (λ r. r.fence) same);
      final = final;
      is_final = ok_or-some panic (final_transaction batch) f;
      checkpointed = sym (ap (λ r. r.checkpoint) same);
    }

final_transaction-last :
    (batch : TransactionBatch) {final : SourceTransaction}
    → final_transaction batch ≡ some final
    → (before : List SourceTransaction) × (batch.transactions ≡ before ++ final ∷ [])
unfolding final_transaction
final_transaction-last batch h = last?-eq_some batch.transactions h

of_apply_ok : {A : Type 0} (r : Result ApplyError A) {a : A} → of_apply r ≡ ok a → r ≡ ok a
of_apply_ok (ok a) h = ap ok (ok_inj h)
of_apply_ok (err e) h = absurd (cc)

-- The checkpoint that an applied batch leaves for its node.
abbrev pub checkpoint_of : CloudberryTransactionSink → SourceTransaction → NodeCheckpoint
checkpoint_of s final = record {
  key = record {
    pipeline_id = s.fence.pipeline_id;
    topology_generation = s.fence.topology_generation;
    node_id = final.final_position.node_id;
  };
  system_identifier = final.final_position.system_identifier;
  timeline = final.final_position.timeline;
  slot_name = s.slot_name;
  applied_lsn = final.final_position.lsn;
}

checkpoint_of-checkpoint_at :
    (s : CloudberryTransactionSink) (final : SourceTransaction)
    → checkpoint_at s.fence s.slot_name final.final_position ≡ checkpoint_of s final
unfolding checkpoint_at
checkpoint_of-checkpoint_at s final = refl

-- What the target has of a batch that was applied: `groups` are its row changes by table.
pub record IsDelivered {D : Type 0} (db : Database D) (m m' : TargetMeta) (d d' : D)
    (s : CloudberryTransactionSink) (batch : TransactionBatch) : Type 0 where
  pub quiet : All (IsQuietTransaction s.ddl_scope) batch.transactions
  pub final : SourceTransaction
  pub before : List SourceTransaction
  pub ends : batch.transactions ≡ before ++ final ∷ []
  pub advanced : IsAdvanced m m' s.fence (checkpoint_of s final)
  pub groups : Grouped
  pub ordered : IsOrdered groups
  pub grouped : (k : TableKey) → changes_at k groups ≡ rows_of k (batch_rows batch.transactions)
  pub tables : List TableApplyBatch
  pub staged : IsStaged s.registry groups tables
  pub changed : D
  pub applied : AllApplied db tables d changed
  pub committed : db.commit changed ≡ ok d'

-- A batch is applied only by the holder of the fence, and only if it has no TRUNCATE and no DDL message
-- that affects a schema in scope or names none. Its row changes, all of them and in order, go to the
-- normaliser table by table, under the schema bound to the table. All staging rows that it returns are
-- then staged, merged into the tables by each statement of the plan, and committed, together with the
-- checkpoint of the node at the batch's final position, which is not behind the one before.
pub apply-IsDelivered :
    {D : Type 0} (db : Database D) (m m' : TargetMeta) (d d' : D) (s : CloudberryTransactionSink)
    (batch : TransactionBatch)
    → apply db m d s batch ≡ ok (m', d')
    → IsDelivered db m m' d d' s batch
unfolding apply
apply-IsDelivered db m m' d d' s batch h =
    let (request, b, h1) =
      bind_ok (build_apply_request_scoped s.fence s.slot_name s.registry s.ddl_scope batch) h in
    let (applied, a, h2) = bind_ok (of_apply (execute_apply db m d request)) h1 in
    let built =
      build_apply_request-IsBuilt s.fence s.slot_name s.registry s.ddl_scope batch request b in
    let same = ok_inj h2 in
    let (before, ends) = final_transaction-last batch built.is_final in
    let grouping = group_batch-content batch.transactions in
    let x =
      execute_apply-IsApplied db m m' d d' request applied.0
        (of_apply_ok (execute_apply db m d request) a ∙ ap (λ y. ok (applied.0, y)) same) in
    record {
      quiet = built.quiet;
      final = built.final;
      before = before;
      ends = ends;
      advanced =
          subst (λ c. IsAdvanced m m' s.fence c)
            (built.checkpointed ∙ checkpoint_of-checkpoint_at s built.final)
            (subst (λ f. IsAdvanced m m' f request.checkpoint) built.fenced
              (advance-IsAdvanced m request.fence request.checkpoint x.advanced));
      groups = group_batch [] batch.transactions;
      ordered = grouping.0;
      grouped = grouping.1;
      tables = request.tables;
      staged = build_tables-IsStaged s.registry (group_batch [] batch.transactions) built.grouped;
      changed = x.changed;
      applied =
          apply_tables-AllApplied db request.tables no_counts applied.0.counts d x.changed
            x.applied;
      committed = x.committed;
    }
