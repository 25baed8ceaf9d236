-- ===== src/Examples/Normalize.antt =====
-- Instances of the theorems on crates/engine/src/normalize.rs and crates/core/src/schema.rs.
use etl_server_cloudberry.Prelude.{
  ℕ, pos, ◌↔◌, ◌≡◌, refl, inl, false, Option, none, some, List, [], ◌∷◌, ok, ℕ_discrete, ℤ_discrete,
  saturating_add, u64_max, sort_by,
}
use etl_server_cloudberry.Prelude.Assoc.{get, insert}
use etl_server_cloudberry.Core.Schema.{
  TableSchema, ColumnSchema, pg_type, int4, text_type, PgTypeKind, not_generated, no_identity,
  ordinary, default, primary_key, QualifiedName,
}
use etl_server_cloudberry.Core.Schema.{validate_supported}
use etl_server_cloudberry.Core.Schema.Contract.{IsSupported, validate_supported_iff}
use etl_server_cloudberry.Core.Change.{text_cell, TableChange, Tuple}
use etl_server_cloudberry.Core.Change
use etl_server_cloudberry.Engine.Normalize.{Normalizer, Lineage}
use etl_server_cloudberry.Engine.Normalize.Lineages.{
  new_normalizer, push, push_row, insert_row, reject_toast, insert_key, add_fresh,
}
use etl_server_cloudberry.Engine.Normalize.Key.{
  new_layout, column_index, schema_order, validate_new_tuple, key_from_cells, key_from_selected,
  key_cell,
}
use etl_server_cloudberry.Engine.Normalize.Finish.{push_all}
use etl_server_cloudberry.Engine.Normalize.Indexed.{IsIndexed}
use etl_server_cloudberry.Engine.Normalize.Runs.{
  new_normalizer-IsIndexed, push-IsIndexed, current_key_unique,
}

abbrev pub named : List ℕ → QualifiedName
named name = record { schema = 112 ∷ []; name = name }

abbrev pub column : ℕ → Option ℕ → PgTypeKind → ColumnSchema
column attnum ordinal kind = record {
  attnum = pos attnum;
  name = 97 ∷ [];
  data_type = pg_type 25 (named (116 ∷ [])) kind;
  nullable = false;
  primary_key_ordinal = ordinal;
  generated = not_generated;
  identity = no_identity;
  collation = none;
}

-- A table with a key column and a value.
abbrev pub table : TableSchema
table = record {
  relation_id = 5;
  generation = 1;
  name = named (120 ∷ []);
  kind = ordinary;
  replica_identity = default;
  columns = column 1 (some 1) int4 ∷ column 2 none text_type ∷ [];
  distribution_key = [];
  partition_key = [];
}

abbrev pub empty : Normalizer
empty = record {
  schema = table;
  primary_key = record { ordinal_indexes = 0 ∷ []; key_tuple_positions = 0 ∷ [] };
  lineages = [];
  current_by_key = [];
  origin_by_key = [];
  sequence = 0;
}

abbrev pub new_tuple : Tuple
new_tuple = record { cells = text_cell (49 ∷ []) ∷ text_cell (50 ∷ []) ∷ [] }

abbrev pub new_row : TableChange
new_row = record { relation_id = 5; generation = 1; change = Change.insert new_tuple }

abbrev pub inserted : Lineage
inserted = record {
  origin_key = none;
  current_key = some ((49 ∷ []) ∷ []);
  cells = new_tuple.cells;
  first_sequence = 0;
}

abbrev pub one_lineage : Normalizer
one_lineage = record empty {
  lineages = inserted ∷ [];
  current_by_key = ((49 ∷ []) ∷ [], 0) ∷ [];
  sequence = 1;
}

pub starts : new_normalizer table ≡ ok empty
unfolding new_normalizer new_layout primary_key sort_by column_index ℤ_discrete ℕ_discrete
    schema_order
starts = refl

accepted : push empty new_row ≡ ok one_lineage
unfolding push push_row insert_row validate_new_tuple reject_toast key_from_cells key_from_selected
    key_cell get insert_key add_fresh insert saturating_add u64_max
accepted = refl

pub all_accepted : push_all empty (new_row ∷ []) ≡ ok one_lineage
unfolding push_all
all_accepted = rw accepted refl

push-IsIndexed_example : IsIndexed one_lineage
push-IsIndexed_example =
    push-IsIndexed empty new_row (new_normalizer-IsIndexed table starts) accepted

current_key_unique_example : ◌≡◌ {A = ℕ} 0 0
current_key_unique_example =
    current_key_unique table (new_row ∷ []) 0 0 inserted inserted ((49 ∷ []) ∷ []) starts
      all_accepted refl refl (inl (refl, refl))

validate_supported_iff_example : (validate_supported table ≡ ok tt) ↔ IsSupported table
validate_supported_iff_example = validate_supported_iff table
