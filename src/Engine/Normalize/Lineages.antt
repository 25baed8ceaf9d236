-- ===== src/Engine/Normalize/Lineages.antt =====
-- crates/engine/src/normalize.rs: the steps of the normaliser, one for each row change.
use etl_server_cloudberry.Prelude.{
  ℕ, Bool, true, false, Option, none, some, List, [], ◌∷◌, ◌++◌, text, length, get_elem?, set,
  replicate, position, ◌==◌, if◌then◌else◌, is_none, is_yes, not, ok, err, ◌>>=◌, ◌>>◌, ok_or,
  saturating_add,
}
use Prim.Native.String.{String}
use etl_server_cloudberry.Prelude.Assoc.{Assoc, get, insert, remove}
use etl_server_cloudberry.Core.Schema.{TableSchema}
use etl_server_cloudberry.Core.Change.{
  Cell, unchanged_toast, Tuple, RowChange, update, delete, TableChange,
}
use etl_server_cloudberry.Core.Change
use etl_server_cloudberry.Engine.Normalize.{
  Failure, error, panic, Normalized, Key, Key-discrete, Lineage, Normalizer, relation_mismatch,
  generation_mismatch, incomplete_insert, ambiguous_sequence, is_toast,
}
use etl_server_cloudberry.Engine.Normalize.Key.{
  new_layout, column_name, validate_new_tuple, key_from_cells, key_from_old_tuple,
  key_from_update_tuple, write_key,
}

unfoldable pub new_normalizer : TableSchema → Normalized Normalizer
new_normalizer schema = do
  layout ← new_layout schema
  ok (record {
    schema = schema;
    primary_key = layout;
    lineages = [];
    current_by_key = [];
    origin_by_key = [];
    sequence = 0;
  })

abbrev pub ambiguous : String → Failure
ambiguous reason = error (ambiguous_sequence (text reason))

-- `contains_key`.
abbrev pub contains : Key → Assoc Key ℕ → Bool
contains key m = not (is_none (get Key-discrete key m))

-- `is_some_and(|other| *other != lineage_index)`.
abbrev pub is_other : Option ℕ → ℕ → Bool
is_other none index = false
is_other (some other) index = not (other == index)

abbrev pub lineage_at : Normalizer → ℕ → Normalized Lineage
lineage_at n index = ok_or panic (get_elem? n.lineages index)

-- A lineage that starts with this batch.
unfoldable pub add_fresh : Normalizer → Key → Tuple → ℕ → Normalizer
add_fresh n key new sequence = record n {
  lineages =
      n.lineages
      ++ record {
        origin_key = none;
        current_key = some key;
        cells = new.cells;
        first_sequence = sequence;
      }
        ∷ [];
  current_by_key = insert Key-discrete key (length n.lineages) n.current_by_key;
}

-- The row at a batch-start key that this batch deleted comes back.
unfoldable pub revive : Normalizer → Key → Tuple → ℕ → Lineage → Normalizer
revive n key new index lineage = record n {
  lineages = set n.lineages index (record lineage { current_key = some key; cells = new.cells });
  current_by_key = insert Key-discrete key index n.current_by_key;
}

unfoldable pub insert_key : Normalizer → Key → Tuple → ℕ → Normalized Normalizer
insert_key n key new sequence = elim (get Key-discrete key n.origin_by_key) [
  | none ↦ ok (add_fresh n key new sequence)
  | some index ↦ do
    lineage ← lineage_at n index
    ok (
        if is_none lineage.current_key
        then revive n key new index lineage
        else add_fresh n key new sequence)
]

unfoldable pub reject_toast : Normalizer → List Cell → Normalized (Unit {0})
reject_toast n cells = elim (position is_toast cells) [
  | none ↦ ok tt
  | some index ↦ column_name n index >>= (λ column. err (error (incomplete_insert column)))
]

unfoldable pub insert_row : Normalizer → Tuple → ℕ → Normalized Normalizer
insert_row n new sequence = do
  validate_new_tuple n new (text "insert")
  reject_toast n new.cells
  key ← key_from_cells n new.cells (text "insert")
  (if contains key n.current_by_key
      then err (ambiguous "insert targets a key that is already live")
      else insert_key n key new sequence)

-- A lineage for a row that the target has at the start of the batch: its index, and the state.
unfoldable pub new_baseline : Normalizer → Key → ℕ → Bool → Normalized (ℕ × Normalizer)
new_baseline n key sequence live = do
  cells ←
      write_key n.primary_key.ordinal_indexes key
        (replicate (length n.schema.columns) unchanged_toast)
  let index = length n.lineages
  ok (
    index,
    record n {
      lineages =
          n.lineages
          ++ record {
            origin_key = some key;
            current_key = if live then some key else none;
            cells = cells;
            first_sequence = sequence;
          }
            ∷ [];
      origin_by_key = insert Key-discrete key index n.origin_by_key;
      current_by_key =
          if live then insert Key-discrete key index n.current_by_key else n.current_by_key;
    },
  )

-- The lineage that an update or a delete applies to.
unfoldable pub baseline_unless_known :
    Normalizer → Key → ℕ → Bool → String → Normalized (ℕ × Normalizer)
baseline_unless_known n key sequence live reason =
    if contains key n.origin_by_key
    then err (ambiguous reason)
    else new_baseline n key sequence live

unfoldable pub find_live : Normalizer → Key → ℕ → Normalized (ℕ × Normalizer)
find_live n key sequence = elim (get Key-discrete key n.current_by_key) [
  | some index ↦ ok (index, n)
  | none ↦
      baseline_unless_known n key sequence true
        "update references a key whose baseline lineage has already moved or died"
]

-- `zip` with the incoming cells: an unchanged value keeps the stored one.
unfoldable pub merge : List Cell → List Cell → List Cell
merge [] incoming = []
merge (s ∷ ss) [] = s ∷ ss
merge (s ∷ ss) (c ∷ cs) = (if is_toast c then s else c) ∷ merge ss cs

unfoldable pub move_key : Normalizer → ℕ → Lineage → Key → Key → Normalized Normalizer
move_key n index lineage previous_key final_key =
    if is_yes (Key-discrete final_key previous_key)
    then ok n
    else if is_other (get Key-discrete final_key n.current_by_key) index
    then err (ambiguous "primary-key update targets another live lineage")
    else if is_other (get Key-discrete final_key n.origin_by_key) index
    then err (ambiguous "primary-key update reuses another batch-start key")
    else ok (record n {
      current_by_key =
          insert Key-discrete final_key index (remove Key-discrete previous_key n.current_by_key);
      lineages = set n.lineages index (record lineage { current_key = some final_key });
    })

unfoldable pub update_lineage : Normalizer → ℕ → Tuple → Normalized Normalizer
update_lineage n index new = do
  lineage ← lineage_at n index
  let merged = record lineage { cells = merge lineage.cells new.cells }
  let stored = record n { lineages = set n.lineages index merged }
  final_key ← key_from_cells stored merged.cells (text "update")
  previous_key ← ok_or panic merged.current_key
  move_key stored index merged previous_key final_key

unfoldable pub old_key_of : Normalizer → Option Tuple → Normalized (Option Key)
old_key_of n none = ok none
old_key_of n (some tuple) = key_from_old_tuple n tuple >>= (λ key. ok (some key))

abbrev pub key_or : Option Key → Key → Key
key_or none key = key
key_or (some old) key = old

unfoldable pub update_row : Normalizer → Option Tuple → Tuple → ℕ → Normalized Normalizer
update_row n old_tuple new sequence = do
  validate_new_tuple n new (text "update")
  old_key ← old_key_of n old_tuple
  new_key ← key_from_update_tuple n new old_key
  found ← find_live n (key_or old_key new_key) sequence
  update_lineage found.1 found.0 new

unfoldable pub take_live : Normalizer → Key → ℕ → Normalized (ℕ × Normalizer)
take_live n key sequence = elim (get Key-discrete key n.current_by_key) [
  | some index ↦ ok (index, record n { current_by_key = remove Key-discrete key n.current_by_key })
  | none ↦
      baseline_unless_known n key sequence false
        "delete references a key whose baseline lineage has already moved or died"
]

unfoldable pub end_lineage : Normalizer → ℕ → Normalized Normalizer
end_lineage n index = do
  lineage ← lineage_at n index
  ok (record n { lineages = set n.lineages index (record lineage { current_key = none }) })

unfoldable pub delete_row : Normalizer → Tuple → ℕ → Normalized Normalizer
delete_row n old_tuple sequence = do
  key ← key_from_old_tuple n old_tuple
  found ← take_live n key sequence
  end_lineage found.1 found.0

unfoldable pub push_row : Normalizer → RowChange → ℕ → Normalized Normalizer
push_row n (Change.insert new) sequence = insert_row n new sequence
push_row n (update old_key new) sequence = update_row n old_key new sequence
push_row n (delete old_key) sequence = delete_row n old_key sequence

unfoldable pub push : Normalizer → TableChange → Normalized Normalizer
push n change =
    if not (change.relation_id == n.schema.relation_id)
    then err (error (relation_mismatch n.schema.relation_id change.relation_id))
    else if not (change.generation == n.schema.generation)
    then err (error (generation_mismatch change.relation_id n.schema.generation change.generation))
    else push_row (record n { sequence = saturating_add n.sequence 1 }) change.change n.sequence
