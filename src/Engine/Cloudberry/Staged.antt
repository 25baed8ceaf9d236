-- ===== src/Engine/Cloudberry/Staged.antt =====
-- The tables of an apply request, in crates/engine/src/adapters/cloudberry.rs.
use etl_server_cloudberry.Prelude.{
  subst, ◌≡◌, refl, sym, ap, some, List, [], ◌∷◌, ok, err, ok_or, ok_or-some, bind_ok, ok_inj,
}
use etl_server_cloudberry.Prelude.Assoc.{get}
use etl_server_cloudberry.Engine.Normalize.{StagingRow}
use etl_server_cloudberry.Engine.Normalize.Finish.{normalize_table_changes}
use etl_server_cloudberry.Target.Apply.{ApplyPlan, TableApplyBatch}
use etl_server_cloudberry.Engine.Cloudberry.{
  add_table, TableBinding, TableKey-discrete, TableBindingRegistry, Grouped, of_normalized,
  no_binding, build_tables,
}

-- A table with staging rows stands before the rest; one without is left out.
abbrev pub IsAdded :
    ApplyPlan → List StagingRow → List TableApplyBatch → List TableApplyBatch → Type 0
IsAdded plan [] rest tables = tables ≡ rest
IsAdded plan (r ∷ rs) rest tables = tables ≡ record { plan = plan; rows = r ∷ rs } ∷ rest

-- Each group's table is bound, its row changes are normalised under the binding's schema, and the
-- staging rows stand in the request under the binding's plan, in the order of the groups.
abbrev pub IsStaged : TableBindingRegistry → Grouped → List TableApplyBatch → Type 0
IsStaged registry [] tables = tables ≡ []
IsStaged registry ((k, changes) ∷ g) tables =
    (binding : TableBinding) × (get TableKey-discrete k registry ≡ some binding)
    × (rows : List StagingRow) × (normalize_table_changes binding.schema changes ≡ ok rows)
    × (rest : List TableApplyBatch) × IsStaged registry g rest
    × IsAdded binding.plan rows rest tables

of_normalized_ok : (r : _) {rows : List StagingRow} → of_normalized r ≡ ok rows → r ≡ ok rows
of_normalized_ok (ok rows) h = ap ok (ok_inj h)
of_normalized_ok (err e) h = absurd (cc)

add_table-IsAdded :
    (plan : ApplyPlan) (rows : List StagingRow) (rest : List TableApplyBatch)
    → IsAdded plan rows rest (add_table plan rows rest)
add_table-IsAdded plan [] rest = refl
add_table-IsAdded plan (r ∷ rs) rest = refl

pub build_tables-IsStaged :
    (registry : TableBindingRegistry) (g : Grouped) {tables : List TableApplyBatch}
    → build_tables registry g ≡ ok tables
    → IsStaged registry g tables
unfolding build_tables
build_tables-IsStaged registry [] h = sym (ok_inj h)
build_tables-IsStaged registry ((k, changes) ∷ g) {tables} h =
    let (binding, b, h1) =
      bind_ok (ok_or (no_binding k.0 k.1) (get TableKey-discrete k registry)) h in
    let (rows, n, h2) =
      bind_ok (of_normalized (normalize_table_changes binding.schema changes)) h1 in
    let (rest, r, h3) = bind_ok (build_tables registry g) h2 in
    (
      binding,
      ok_or-some _ _ b,
      rows,
      of_normalized_ok (normalize_table_changes binding.schema changes) n,
      rest,
      build_tables-IsStaged registry g r,
      subst (IsAdded binding.plan rows rest) (ok_inj h3) (add_table-IsAdded binding.plan rows rest),
    )
