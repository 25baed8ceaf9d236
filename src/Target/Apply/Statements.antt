-- ===== src/Target/Apply/Statements.antt =====
-- What an apply transaction of crates/target-cloudberry/src/apply.rs executes: the statements of each
-- table, and one table after the other.
use etl_server_cloudberry.Prelude.{
  ℕ, ◌≡◌, refl, sym, ◌∙◌, ap, false, true, Bool, ◌⊎◌, inl, inr, Option, none, some, List, [], ◌∷◌,
  Bytes, Text, bind_ok, then_ok, ok_inj, ok, traverse, subst,
}
use etl_server_cloudberry.Engine.Normalize.{StagingRow}
use etl_server_cloudberry.Target.Apply.{
  ApplyPlan, TableApplyBatch, ApplyCounts, Database, encode_staging_row, check_batch,
  execute_optional, fill_staging, merge_staging, stage_table, apply_table, apply_tables,
}
use etl_server_cloudberry.Target.Apply.Rows.{EachRead, traverse-EachRead}

module _ {D : Type 0} (db : Database D) where
  abbrev pub IsExecuted : Option Text → D → ℕ × D → Type 0
  IsExecuted none d (count, d') = (count ≡ 0) × (d' ≡ d)
  IsExecuted (some sql) d result = db.execute sql d ≡ ok result

  -- The staged rows of a table were copied into its staging table and found valid.
  pub record IsFilled (t : TableApplyBatch) (d : D) (copied : ℕ × D) : Type 0 where
    pub created : D
    pub is_created : db.batch_execute t.plan.create_staging_sql d ≡ ok created
    pub copying : D
    pub is_copying : db.copy_in t.plan.copy_sql created ≡ ok copying
    pub encoded : List Bytes
    pub is_encoded : EachRead t.plan t.rows encoded
    pub is_copied : db.finish_copy encoded copying ≡ ok copied
    pub is_valid : db.query_bool t.plan.validation_sql copied.1 ≡ ok false

  -- Each statement of the table's plan was executed on what the one before had left.
  pub record IsMerged (t : TableApplyBatch) (d d' : D) : Type 0 where
    pub deleted : ℕ × D
    pub is_deleted : db.execute t.plan.delete_sql d ≡ ok deleted
    pub moved : ℕ × D
    pub is_moved : db.execute t.plan.move_sql deleted.1 ≡ ok moved
    pub gone : ℕ × D
    pub is_gone : db.execute t.plan.delete_moved_sql moved.1 ≡ ok gone
    pub updated : ℕ × D
    pub is_updated : IsExecuted t.plan.update_sql gone.1 updated
    pub inserted : ℕ × D
    pub is_inserted : db.execute t.plan.insert_sql updated.1 ≡ ok inserted
    pub left : d' ≡ inserted.1

  abbrev pub IsTableApplied : TableApplyBatch → D → D → Type 0
  IsTableApplied t d d' = (copied : ℕ × D) × IsFilled t d copied × IsMerged t copied.1 d'

  -- The tables one after the other; one without rows is left alone.
  abbrev pub AllApplied : List TableApplyBatch → D → D → Type 0
  AllApplied [] d d' = d' ≡ d
  AllApplied (t ∷ ts) d d' =
      (mid : D) × (((t.rows ≡ []) × (mid ≡ d)) ⊎ IsTableApplied t d mid) × AllApplied ts mid d'

  check_batch-valid :
      (t : TableApplyBatch) (invalid : Bool) → check_batch db t invalid ≡ ok tt → invalid ≡ false
  unfolding check_batch
  check_batch-valid t true h = absurd (cc)
  check_batch-valid t false h = refl

  execute_optional-IsExecuted :
      (sql : Option Text) (d : D) {result : ℕ × D}
      → execute_optional db sql d ≡ ok result
      → IsExecuted sql d result
  unfolding execute_optional
  execute_optional-IsExecuted none d h =
      (sym (ap (λ r. r.0) (ok_inj h)), sym (ap (λ r. r.1) (ok_inj h)))
  execute_optional-IsExecuted (some sql) d h = h

  fill_staging-IsFilled :
      (t : TableApplyBatch) (d : D) {copied : ℕ × D}
      → fill_staging db t d ≡ ok copied
      → IsFilled t d copied
  unfolding fill_staging
  fill_staging-IsFilled t d h =
      let (created, a, h1) = bind_ok (db.batch_execute t.plan.create_staging_sql d) h in
      let (copying, b, h2) = bind_ok (db.copy_in t.plan.copy_sql created) h1 in
      let (encoded, c, h3) = bind_ok (traverse (encode_staging_row t.plan) t.rows) h2 in
      let (copied, e, h4) = bind_ok (db.finish_copy encoded copying) h3 in
      let (invalid, f, h5) = bind_ok (db.query_bool t.plan.validation_sql copied.1) h4 in
      let (valid, h6) = then_ok (check_batch db t invalid) h5 in
      subst (IsFilled t d) (ok_inj h6) (record {
        created = created;
        is_created = a;
        copying = copying;
        is_copying = b;
        encoded = encoded;
        is_encoded = traverse-EachRead t.plan t.rows c;
        is_copied = e;
        is_valid = f ∙ ap ok (check_batch-valid t invalid valid);
      })

  merge_staging-IsMerged :
      (t : TableApplyBatch) (counts counts' : ApplyCounts) (d d' : D)
      → merge_staging db t counts d ≡ ok (counts', d')
      → IsMerged t d d'
  unfolding merge_staging
  merge_staging-IsMerged t counts counts' d d' h =
      let (deleted, g, h7) = bind_ok (db.execute t.plan.delete_sql d) h in
      let (moved, k, h8) = bind_ok (db.execute t.plan.move_sql deleted.1) h7 in
      let (gone, l, h9) = bind_ok (db.execute t.plan.delete_moved_sql moved.1) h8 in
      let (updated, m, h10) = bind_ok (execute_optional db t.plan.update_sql gone.1) h9 in
      let (inserted, n, h11) = bind_ok (db.execute t.plan.insert_sql updated.1) h10 in
      record {
        deleted = deleted;
        is_deleted = g;
        moved = moved;
        is_moved = k;
        gone = gone;
        is_gone = l;
        updated = updated;
        is_updated = execute_optional-IsExecuted t.plan.update_sql gone.1 m;
        inserted = inserted;
        is_inserted = n;
        left = sym (ap (λ r. r.1) (ok_inj h11));
      }

  stage_table-IsTableApplied :
      (t : TableApplyBatch) (counts counts' : ApplyCounts) (d d' : D)
      → stage_table db t counts d ≡ ok (counts', d')
      → IsTableApplied t d d'
  unfolding stage_table
  stage_table-IsTableApplied t counts counts' d d' h =
      let (copied, e, h1) = bind_ok (fill_staging db t d) h in
      (copied, fill_staging-IsFilled t d e, merge_staging-IsMerged t _ counts' copied.1 d' h1)

  apply_rows :
      (plan : ApplyPlan) (rows : List StagingRow) (counts counts' : ApplyCounts) (d d' : D)
      → apply_table db (record { plan = plan; rows = rows }) counts d ≡ ok (counts', d')
      → ((rows ≡ []) × (d' ≡ d)) ⊎ IsTableApplied (record { plan = plan; rows = rows }) d d'
  unfolding apply_table
  apply_rows plan [] counts counts' d d' h = inl (refl, sym (ap (λ r. r.1) (ok_inj h)))
  apply_rows plan (r ∷ rs) counts counts' d d' h =
      inr (stage_table-IsTableApplied (record { plan = plan; rows = r ∷ rs }) counts counts' d d' h)

  pub apply_tables-AllApplied :
      (ts : List TableApplyBatch) (counts counts' : ApplyCounts) (d d' : D)
      → apply_tables db ts counts d ≡ ok (counts', d')
      → AllApplied ts d d'
  unfolding apply_tables
  apply_tables-AllApplied [] counts counts' d d' h = sym (ap (λ r. r.1) (ok_inj h))
  apply_tables-AllApplied (t ∷ ts) counts counts' d d' h =
      let ((counts1, d1), e, h1) = bind_ok (apply_table db t counts d) h in
      (
        d1,
        apply_rows t.plan t.rows counts counts1 d d1 e,
        apply_tables-AllApplied ts counts1 counts' d1 d' h1,
      )
