-- ===== src/Engine/Cloudberry.antt =====
-- crates/engine/src/adapters/cloudberry.rs: a committed batch becomes one target transaction. The plan
-- of a table is an argument; the planner is not modelled.
pub mod Quiet
pub mod Staged
pub mod Delivery
pub mod Groups
pub mod Grouping
pub mod Registry
use etl_server_cloudberry.Prelude.{
  ℕ, ℤ, Bool, true, false, not, ◌&&◌, ◌||◌, Option, none, some, List, [], ◌∷◌, ◌++◌, Text, any,
  is_empty, contains_nul, is_yes, ltb, ◌==◌, if◌then◌else◌, Bytes-discrete, ℕ_discrete, Result, ok,
  err, ok_or, ◌>>=◌, ◌>>◌,
}
use etl_server_cloudberry.Prelude.Assoc.{Assoc, get, insert}
use etl_server_cloudberry.Core.Schema.{QualifiedName, TableSchema, name_to_string}
use etl_server_cloudberry.Core.Change.{
  TableChange, TransactionChange, row, truncate, ddl, SourceTransaction, SourcePosition, DdlMessage,
}
use etl_server_cloudberry.Engine.Batch.{TransactionBatch, final_transaction}
use etl_server_cloudberry.Engine.Normalize.{Normalized, Failure, StagingRow}
use etl_server_cloudberry.Engine.Normalize.Finish.{normalize_table_changes}
use etl_server_cloudberry.Target.Checkpoint.{PipelineFence, NodeCheckpoint, TargetMeta}
use etl_server_cloudberry.Target.Apply.{
  ApplyPlan, TableApplyBatch, ApplyRequest, ApplyOutcome, ApplyError, Database, execute_apply,
}

pub data AdapterConfigError : Type 0 where
  duplicate_binding : ℕ → ℕ → AdapterConfigError
  duplicate_target : Text → AdapterConfigError
  duplicate_staging_name : Text → AdapterConfigError
  invalid_slot_name : AdapterConfigError

-- The errors of `apply` by their cause; `panic` is the failed `expect` of `final_transaction`.
pub data SinkError : Type 0 where
  ddl_barrier : ℕ → DdlMessage → SinkError
  truncate_barrier : ℕ → List ℕ → SinkError
  no_binding : ℕ → ℕ → SinkError
  normalize : Failure → SinkError
  target : ApplyError → SinkError
  panic : SinkError

abbrev pub SinkResult : Type 0 → Type 0
SinkResult A = Result SinkError A

-- The sets of schemas are lists.
pub record DdlScope : Type 0 where
  pub include_schemas : Option (List Text)
  pub exclude_schemas : List Text

abbrev pub default_scope : DdlScope
default_scope = record { include_schemas = none; exclude_schemas = [] }

unfoldable pub contains : List Text → Text → Bool
contains schemas schema = any (λ s. is_yes (Bytes-discrete s schema)) schemas

unfoldable pub exclude : DdlScope → Text → DdlScope
exclude scope schema = record scope { exclude_schemas = schema ∷ scope.exclude_schemas }

unfoldable pub is_in_scope : DdlScope → Text → Bool
is_in_scope scope schema = elim scope.include_schemas [
  | none ↦ not (contains scope.exclude_schemas schema)
  | some included ↦ contains included schema && not (contains scope.exclude_schemas schema)
]

unfoldable pub requires_barrier : DdlScope → DdlMessage → Bool
requires_barrier scope message =
    is_empty message.affected_schemas || any (is_in_scope scope) message.affected_schemas

pub record TableBinding : Type 0 where
  pub schema : TableSchema
  pub plan : ApplyPlan

abbrev pub TableKey : Type 0
TableKey = ℕ × ℕ

unfoldable pub TableKey-discrete : Discrete TableKey
TableKey-discrete = hlevel ℕ_discrete

unfoldable pub QualifiedName-discrete : Discrete QualifiedName
QualifiedName-discrete = hlevel ℕ_discrete

unfoldable pub key : TableBinding → TableKey
key b = (b.schema.relation_id, b.schema.generation)

abbrev pub TableBindingRegistry : Type 0
TableBindingRegistry = Assoc TableKey TableBinding

-- What `TableBindingRegistry::new` has collected so far.
pub record Collected : Type 0 where
  pub by_key : TableBindingRegistry
  pub targets : List QualifiedName
  pub staging_names : List Text

unfoldable pub has_target : List QualifiedName → QualifiedName → Bool
has_target targets t = any (λ u. is_yes (QualifiedName-discrete u t)) targets

unfoldable pub is_bound : TableBindingRegistry → TableKey → Bool
is_bound registry k = elim (get TableKey-discrete k registry) [ none ↦ false | some b ↦ true ]

unfoldable pub collect : Collected → TableBinding → Result AdapterConfigError Collected
collect c b =
    if is_bound c.by_key (key b)
    then err (duplicate_binding b.schema.relation_id b.schema.generation)
    else if has_target c.targets b.plan.table.target
    then err (duplicate_target (name_to_string b.plan.table.target))
    else if contains c.staging_names b.plan.staging_name
    then err (duplicate_staging_name b.plan.staging_name)
    else ok (record {
      by_key = insert TableKey-discrete (key b) b c.by_key;
      targets = b.plan.table.target ∷ c.targets;
      staging_names = b.plan.staging_name ∷ c.staging_names;
    })

unfoldable pub collect_all : Collected → List TableBinding → Result AdapterConfigError Collected
collect_all c [] = ok c
collect_all c (b ∷ bs) = collect c b >>= (λ c'. collect_all c' bs)

unfoldable pub new_registry : List TableBinding → Result AdapterConfigError TableBindingRegistry
new_registry bindings = do
  c ← collect_all (record { by_key = []; targets = []; staging_names = [] }) bindings
  ok c.by_key

-- One change of `reject_schema_barriers`, in the transaction `xid`.
unfoldable pub reject_change : DdlScope → ℕ → TransactionChange → SinkResult (Unit {0})
reject_change scope xid (row change) = ok tt
reject_change scope xid (truncate relation_ids cascade restart_identity) =
    err (truncate_barrier xid relation_ids)
reject_change scope xid (ddl message) =
    if requires_barrier scope message then err (ddl_barrier xid message) else ok tt

unfoldable pub reject_changes : DdlScope → ℕ → List TransactionChange → SinkResult (Unit {0})
reject_changes scope xid [] = ok tt
reject_changes scope xid (c ∷ cs) =
    let rest = reject_changes scope xid cs in reject_change scope xid c >> rest

unfoldable pub reject_schema_barriers : DdlScope → List SourceTransaction → SinkResult (Unit {0})
reject_schema_barriers scope [] = ok tt
reject_schema_barriers scope (t ∷ ts) =
    let rest = reject_schema_barriers scope ts in reject_changes scope t.xid t.changes >> rest

-- The `BTreeMap` of the row changes by table, in the order of its keys.
abbrev pub Grouped : Type 0
Grouped = List (TableKey × List TableChange)

-- The order of the pairs.
unfoldable pub key_ltb : TableKey → TableKey → Bool
key_ltb (a, b) (c, d) = ltb a c || (a == c && ltb b d)

unfoldable pub change_key : TableChange → TableKey
change_key c = (c.relation_id, c.generation)

-- `entry(key).or_default().push(change)`.
unfoldable pub group_push : TableChange → Grouped → Grouped
group_push c [] = (change_key c, c ∷ []) ∷ []
group_push c ((k, cs) ∷ g) =
    let rest = group_push c g in
    if is_yes (TableKey-discrete k (change_key c))
    then (k, cs ++ c ∷ []) ∷ g
    else if key_ltb (change_key c) k
    then (change_key c, c ∷ []) ∷ (k, cs) ∷ g
    else (k, cs) ∷ rest

unfoldable pub group_changes : Grouped → List TransactionChange → Grouped
group_changes g [] = g
group_changes g (row c ∷ cs) = group_changes (group_push c g) cs
group_changes g (_ ∷ cs) = group_changes g cs

unfoldable pub group_batch : Grouped → List SourceTransaction → Grouped
group_batch g [] = g
group_batch g (t ∷ ts) = group_batch (group_changes g t.changes) ts

abbrev pub of_normalized : Normalized (List StagingRow) → SinkResult (List StagingRow)
of_normalized (ok rows) = ok rows
of_normalized (err e) = err (normalize e)

abbrev pub add_table : ApplyPlan → List StagingRow → List TableApplyBatch → List TableApplyBatch
add_table plan rows tables =
    if is_empty rows then tables else record { plan = plan; rows = rows } ∷ tables

unfoldable pub build_tables : TableBindingRegistry → Grouped → SinkResult (List TableApplyBatch)
build_tables registry [] = ok []
build_tables registry (((relation_id, generation), changes) ∷ g) =
    let rest = build_tables registry g in
    do
      binding ←
          ok_or (no_binding relation_id generation)
            (get TableKey-discrete (relation_id, generation) registry)
      rows ← of_normalized (normalize_table_changes binding.schema changes)
      tables ← rest
      ok (add_table binding.plan rows tables)

unfoldable pub checkpoint_at : PipelineFence → Text → SourcePosition → NodeCheckpoint
checkpoint_at fence slot_name p = record {
  key = record {
    pipeline_id = fence.pipeline_id;
    topology_generation = fence.topology_generation;
    node_id = p.node_id;
  };
  system_identifier = p.system_identifier;
  timeline = p.timeline;
  slot_name = slot_name;
  applied_lsn = p.lsn;
}

unfoldable pub build_apply_request_scoped :
    PipelineFence
    → Text
    → TableBindingRegistry
    → DdlScope
    → TransactionBatch
    → SinkResult ApplyRequest
build_apply_request_scoped fence slot_name registry scope batch = do
  reject_schema_barriers scope batch.transactions
  tables ← build_tables registry (group_batch [] batch.transactions)
  final ← ok_or panic (final_transaction batch)
  ok (record {
    fence = fence;
    checkpoint = checkpoint_at fence slot_name final.final_position;
    tables = tables;
  })

unfoldable pub build_apply_request :
    PipelineFence → Text → TableBindingRegistry → TransactionBatch → SinkResult ApplyRequest
build_apply_request fence slot_name registry batch =
    build_apply_request_scoped fence slot_name registry default_scope batch

pub record CloudberryTransactionSink : Type 0 where
  pub fence : PipelineFence
  pub slot_name : Text
  pub registry : TableBindingRegistry
  pub ddl_scope : DdlScope

unfoldable pub new_sink :
    PipelineFence
    → Text
    → TableBindingRegistry
    → DdlScope
    → Result AdapterConfigError CloudberryTransactionSink
new_sink fence slot_name registry ddl_scope =
    if is_empty slot_name || contains_nul slot_name
    then err invalid_slot_name
    else ok (record {
      fence = fence;
      slot_name = slot_name;
      registry = registry;
      ddl_scope = ddl_scope;
    })

abbrev of_apply {ℓ} : {A : Type ℓ} → Result ApplyError A → Result SinkError A
of_apply (ok a) = ok a
of_apply (err e) = err (target e)

unfoldable pub apply :
    {D : Type 0}
    → Database D
    → TargetMeta
    → D
    → CloudberryTransactionSink
    → TransactionBatch
    → SinkResult (TargetMeta × D)
apply db m d s batch = do
  request ← build_apply_request_scoped s.fence s.slot_name s.registry s.ddl_scope batch
  applied ← of_apply (execute_apply db m d request)
  ok applied.1
