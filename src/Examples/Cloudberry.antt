-- ===== src/Examples/Cloudberry.antt =====
-- Instances of the theorems on crates/engine/src/adapters/cloudberry.rs.
use etl_server_cloudberry.Prelude.{
  ℕ, ◌≡◌, refl, pos, true, false, none, some, List, [], ◌∷◌, text, ok, err, arith, All, ℕ_discrete,
  ℤ_discrete, Bytes-discrete,
}
use etl_server_cloudberry.Prelude.Assoc.{get, insert, remove}
use etl_server_cloudberry.Core.Change.{row, ddl, SourceTransaction}
use etl_server_cloudberry.Engine.Batch.{TransactionBatch, final_transaction}
use etl_server_cloudberry.Engine.Normalize.{StagingRow, upsert}
use etl_server_cloudberry.Engine.Normalize.Finish.{normalize_table_changes}
use etl_server_cloudberry.Target.Apply.{ApplyPlan, execute_apply, TableApplyBatch}
use etl_server_cloudberry.Engine.Cloudberry.{
  CloudberryTransactionSink, collect_all, collect, is_bound, has_target, contains,
  QualifiedName-discrete, TableBinding, TableKey, TableKey-discrete, TableBindingRegistry, key,
  new_registry, group_batch, apply,
}
use etl_server_cloudberry.Engine.Cloudberry.Delivery.{IsDelivered, apply-IsDelivered}
use etl_server_cloudberry.Engine.Cloudberry.Groups.{IsOrdered, changes_at, rows_of, batch_rows}
use etl_server_cloudberry.Engine.Cloudberry.Grouping.{group_batch-content}
use etl_server_cloudberry.Engine.Cloudberry.Registry.{AllApart, new_registry-finds}
use etl_server_cloudberry.Examples.Normalize.{table, new_row}
use etl_server_cloudberry.Examples.Target.{at_100, at_200, fence_with}
use etl_server_cloudberry.Examples.Apply.{counting}

abbrev plan_named : ℕ → ApplyPlan
plan_named name = record {
  table = record {
    target = record { schema = 112 ∷ []; name = name ∷ [] };
    columns =
        record {
          source_attnum = pos 1;
          name = 97 ∷ [];
          type_sql = text "int";
          nullable = false;
          primary_key_ordinal = some 1;
        }
        ∷ record {
          source_attnum = pos 2;
          name = 98 ∷ [];
          type_sql = text "text";
          nullable = true;
          primary_key_ordinal = none;
        }
        ∷ [];
    primary_key = (97 ∷ []) ∷ [];
    distribution_key = (97 ∷ []) ∷ [];
    create_sql = text "table";
  };
  staging_name = name ∷ [];
  copy_layout = record {
    operation_column = text "op";
    data_columns = (97 ∷ []) ∷ (98 ∷ []) ∷ [];
    presence_columns =
        record {
          source_column_index = 1;
          source_column_name = 98 ∷ [];
          staging_column_name = text "p";
        }
        ∷ [];
    old_key_present_column = text "o";
    old_key_columns =
        record {
          source_column_index = 0;
          source_column_name = 97 ∷ [];
          staging_column_name = text "k";
          type_sql = text "int";
        }
        ∷ [];
  };
  create_staging_sql = text "create";
  copy_sql = text "copy";
  validation_sql = text "validate";
  delete_sql = text "delete";
  move_sql = text "move";
  delete_moved_sql = text "delete moved";
  update_sql = some (text "update");
  insert_sql = text "insert";
}

abbrev first_binding : TableBinding
first_binding = record { schema = table; plan = plan_named 120 }

abbrev second_binding : TableBinding
second_binding = record { schema = record table { relation_id = 6 }; plan = plan_named 121 }

abbrev both : TableBindingRegistry
both = (key second_binding, second_binding) ∷ (key first_binding, first_binding) ∷ []

both_bound : new_registry (first_binding ∷ second_binding ∷ []) ≡ ok both
unfolding new_registry collect_all collect is_bound get has_target contains insert TableKey-discrete
    ℕ_discrete key QualifiedName-discrete Bytes-discrete
both_bound = refl

new_registry-finds_example :
    All (λ b. get TableKey-discrete (key b) both ≡ some b) (first_binding ∷ second_binding ∷ [])
    × AllApart (first_binding ∷ second_binding ∷ [])
new_registry-finds_example =
    new_registry-finds (first_binding ∷ second_binding ∷ []) both both_bound

-- A row of the first table, and DDL in a schema that is out of scope.
abbrev transaction_at_200 : SourceTransaction
transaction_at_200 = record {
  xid = 700;
  commit_time = pos 1_000;
  final_position = record { node_id = pos 0; system_identifier = 42; timeline = 1; lsn = 200 };
  changes =
      row new_row
      ∷ ddl (record {
        version = 1;
        command_tag = text "ALTER TABLE";
        relation_ids = [];
        affected_schemas = (122 ∷ []) ∷ [];
        schema_fingerprint = text "f";
      })
      ∷ [];
}

abbrev one_batch : TransactionBatch
one_batch = record {
  transactions = transaction_at_200 ∷ [];
  row_count = 1;
  estimated_bytes = 2;
  has_generation_barrier = false;
}

abbrev sink : CloudberryTransactionSink
sink = record {
  fence = fence_with 2;
  slot_name = text "slot";
  registry = both;
  ddl_scope = record { include_schemas = none; exclude_schemas = (122 ∷ []) ∷ [] };
}

group_batch-content_example :
    IsOrdered (group_batch [] (transaction_at_200 ∷ []))
    × ((k : TableKey)
        → changes_at k (group_batch [] (transaction_at_200 ∷ []))
          ≡ rows_of k (batch_rows (transaction_at_200 ∷ [])))
group_batch-content_example = group_batch-content (transaction_at_200 ∷ [])

one_batch_applies : apply counting at_100 0 sink one_batch ≡ ok (at_200, 1)
unfolding etl_server_cloudberry.Engine.Cloudberry.contains
    etl_server_cloudberry.Engine.Cloudberry.is_in_scope
    etl_server_cloudberry.Engine.Cloudberry.requires_barrier
    etl_server_cloudberry.Engine.Cloudberry.TableKey-discrete
    etl_server_cloudberry.Engine.Cloudberry.key
    etl_server_cloudberry.Engine.Cloudberry.reject_change
    etl_server_cloudberry.Engine.Cloudberry.reject_changes
    etl_server_cloudberry.Engine.Cloudberry.reject_schema_barriers
    etl_server_cloudberry.Engine.Cloudberry.change_key
    etl_server_cloudberry.Engine.Cloudberry.group_push
    etl_server_cloudberry.Engine.Cloudberry.group_changes
    etl_server_cloudberry.Engine.Cloudberry.group_batch
    etl_server_cloudberry.Engine.Cloudberry.build_tables
    etl_server_cloudberry.Engine.Cloudberry.checkpoint_at
    etl_server_cloudberry.Engine.Cloudberry.build_apply_request_scoped
    etl_server_cloudberry.Engine.Cloudberry.apply
    etl_server_cloudberry.Engine.Normalize.Lineages.new_normalizer
    etl_server_cloudberry.Engine.Normalize.Lineages.add_fresh
    etl_server_cloudberry.Engine.Normalize.Lineages.insert_key
    etl_server_cloudberry.Engine.Normalize.Lineages.reject_toast
    etl_server_cloudberry.Engine.Normalize.Lineages.insert_row
    etl_server_cloudberry.Engine.Normalize.Lineages.push_row
    etl_server_cloudberry.Engine.Normalize.Lineages.push
    etl_server_cloudberry.Engine.Normalize.Key.column_index
    etl_server_cloudberry.Engine.Normalize.Key.schema_order
    etl_server_cloudberry.Engine.Normalize.Key.new_layout
    etl_server_cloudberry.Engine.Normalize.Key.validate_new_tuple
    etl_server_cloudberry.Engine.Normalize.Key.key_cell
    etl_server_cloudberry.Engine.Normalize.Key.key_from_selected
    etl_server_cloudberry.Engine.Normalize.Key.key_from_cells
    etl_server_cloudberry.Engine.Normalize.Finish.inserted_staging_row
    etl_server_cloudberry.Engine.Normalize.Finish.lineage_row
    etl_server_cloudberry.Engine.Normalize.Finish.staging_rows
    etl_server_cloudberry.Engine.Normalize.Finish.finish
    etl_server_cloudberry.Engine.Normalize.Finish.push_all
    etl_server_cloudberry.Engine.Normalize.Finish.normalize_table_changes
    etl_server_cloudberry.Target.Apply.is_absent etl_server_cloudberry.Target.Apply.check_keys
    etl_server_cloudberry.Target.Apply.check_operation
    etl_server_cloudberry.Target.Apply.check_old_key
    etl_server_cloudberry.Target.Apply.operation_cell etl_server_cloudberry.Target.Apply.placeholder
    etl_server_cloudberry.Target.Apply.presence_cell
    etl_server_cloudberry.Target.Apply.old_key_fields
    etl_server_cloudberry.Target.Apply.staging_fields
    etl_server_cloudberry.Target.Apply.encode_staging_row
    etl_server_cloudberry.Target.Apply.check_staging_names
    etl_server_cloudberry.Target.Apply.validate_request
    etl_server_cloudberry.Target.Apply.check_batch
    etl_server_cloudberry.Target.Apply.execute_optional
    etl_server_cloudberry.Target.Apply.fill_staging etl_server_cloudberry.Target.Apply.merge_staging
    etl_server_cloudberry.Target.Apply.stage_table etl_server_cloudberry.Target.Apply.apply_table
    etl_server_cloudberry.Target.Apply.apply_tables etl_server_cloudberry.Target.Apply.execute_apply
    etl_server_cloudberry.Target.Checkpoint.CheckpointKey-discrete
    etl_server_cloudberry.Target.Checkpoint.database_generation
    etl_server_cloudberry.Target.Checkpoint.validate_fence
    etl_server_cloudberry.Target.Checkpoint.validate_checkpoint
    etl_server_cloudberry.Target.Checkpoint.is_current_fence
    etl_server_cloudberry.Target.Checkpoint.check_fence
    etl_server_cloudberry.Target.Checkpoint.lock_pipeline_fence
    etl_server_cloudberry.Target.Checkpoint.is_same_identity
    etl_server_cloudberry.Target.Checkpoint.ensure_same_identity
    etl_server_cloudberry.Target.Checkpoint.compare_lsn
    etl_server_cloudberry.Target.Checkpoint.check_advance
    etl_server_cloudberry.Target.Checkpoint.ensure_one_row
    etl_server_cloudberry.Target.Checkpoint.update_checkpoint
    etl_server_cloudberry.Target.Checkpoint.write_outcome
    etl_server_cloudberry.Target.Checkpoint.is_fence_key
    etl_server_cloudberry.Target.Checkpoint.advance_node_checkpoint
    etl_server_cloudberry.Target.Copy.encode_field etl_server_cloudberry.Target.Copy.encode_rest
    etl_server_cloudberry.Target.Copy.encode_row etl_server_cloudberry.Core.Schema.primary_key
    etl_server_cloudberry.Core.Schema.validate_supported
    etl_server_cloudberry.Engine.Batch.final_transaction etl_server_cloudberry.Prelude.Assoc.get
    etl_server_cloudberry.Prelude.Assoc.insert etl_server_cloudberry.Prelude.sort_by
    etl_server_cloudberry.Prelude.text etl_server_cloudberry.Prelude.Bytes-discrete
    etl_server_cloudberry.Prelude.ℤ_discrete ℕ_discrete
    etl_server_cloudberry.Core.Schema.type_is_supported
one_batch_applies = refl

apply-IsDelivered_example : IsDelivered counting at_100 at_200 0 1 sink one_batch
apply-IsDelivered_example =
    apply-IsDelivered counting at_100 at_200 0 1 sink one_batch one_batch_applies
