-- ===== src/Engine/Normalize/Finish.antt =====
-- crates/engine/src/normalize.rs: the staging rows of a finished normaliser, and the two entry
-- points over a table's changes and over a batch.
use etl_server_cloudberry.Prelude.{
  ℕ, Bool, Option, none, some, List, [], ◌∷◌, ◌++◌, length, replicate, map, leb, ◌==◌,
  if◌then◌else◌, is_yes, Result, ok, err, ◌>>=◌, ◌>>◌, sort_by,
}
use etl_server_cloudberry.Core.Schema.{CoreError, TableSchema, validate_supported}
use etl_server_cloudberry.Core.Change.{
  Cell, unchanged_toast, text_cell, TableChange, TransactionChange, row, SourceTransaction,
}
use etl_server_cloudberry.Engine.Batch.{TransactionBatch}
use etl_server_cloudberry.Engine.Normalize.{
  error, schema, Normalized, Key, Key-discrete, Lineage, Normalizer, StagingRow, upsert, delete,
  move,
}
use etl_server_cloudberry.Engine.Normalize.Key.{write_key}
use etl_server_cloudberry.Engine.Normalize.Lineages.{new_normalizer, contains, reject_toast, push}

-- `Key::cells`.
unfoldable pub key_cells : Key → List Cell
key_cells key = map text_cell key

unfoldable pub inserted_staging_row : Normalizer → List Cell → Normalized StagingRow
inserted_staging_row n cells = do
  reject_toast n cells
  ok (record { operation = upsert; cells = cells; old_key = none })

unfoldable pub deleted_staging_row : Normalizer → Key → Normalized StagingRow
deleted_staging_row n origin = do
  cells ←
      write_key n.primary_key.ordinal_indexes origin
        (replicate (length n.schema.columns) unchanged_toast)
  ok (record { operation = delete; cells = cells; old_key = none })

abbrev kept : Normalized StagingRow → Normalized (Option StagingRow)
kept r = r >>= (λ staged. ok (some staged))

unfoldable pub lineage_row :
    Normalizer → Option Key → Option Key → List Cell → Normalized (Option StagingRow)
lineage_row n none none cells = ok none
lineage_row n none (some current) cells = kept (inserted_staging_row n cells)
lineage_row n (some origin) (some current) cells =
    if is_yes (Key-discrete origin current)
    then ok (some (record { operation = upsert; cells = cells; old_key = none }))
    else ok (some (record { operation = move; cells = cells; old_key = some (key_cells origin) }))
lineage_row n (some origin) none cells =
    if contains origin n.current_by_key then ok none else kept (deleted_staging_row n origin)

abbrev pub prepend : Option StagingRow → List StagingRow → List StagingRow
prepend none rows = rows
prepend (some staged) rows = staged ∷ rows

unfoldable pub staging_rows : Normalizer → List Lineage → Normalized (List StagingRow)
staging_rows n [] = ok []
staging_rows n (l ∷ ls) =
    let rest = staging_rows n ls in
    do
      staged ← lineage_row n l.origin_key l.current_key l.cells
      rows ← rest
      ok (prepend staged rows)

abbrev pub by_first_sequence : Lineage → Lineage → Bool
by_first_sequence a b = leb a.first_sequence b.first_sequence

unfoldable pub finish : Normalizer → Normalized (List StagingRow)
finish n = staging_rows n (sort_by by_first_sequence n.lineages)

unfoldable pub push_all : Normalizer → List TableChange → Normalized Normalizer
push_all n [] = ok n
push_all n (c ∷ cs) = push n c >>= (λ n'. push_all n' cs)

abbrev of_schema : Result CoreError (Unit {0}) → Normalized (Unit {0})
of_schema (ok u) = ok tt
of_schema (err e) = err (error (schema e))

unfoldable pub normalize_table_changes :
    TableSchema → List TableChange → Normalized (List StagingRow)
normalize_table_changes t changes = do
  of_schema (validate_supported t)
  n ← new_normalizer t
  n' ← push_all n changes
  finish n'

unfoldable pub rows_of : ℕ → List TransactionChange → List TableChange
rows_of relation_id [] = []
rows_of relation_id (row change ∷ cs) =
    let rest = rows_of relation_id cs in
    if change.relation_id == relation_id then change ∷ rest else rest
rows_of relation_id (_ ∷ cs) = rows_of relation_id cs

unfoldable pub batch_rows : ℕ → List SourceTransaction → List TableChange
batch_rows relation_id [] = []
batch_rows relation_id (t ∷ ts) = rows_of relation_id t.changes ++ batch_rows relation_id ts

unfoldable pub normalize_table_batch : TableSchema → TransactionBatch → Normalized (List StagingRow)
normalize_table_batch t batch =
    normalize_table_changes t (batch_rows t.relation_id batch.transactions)
