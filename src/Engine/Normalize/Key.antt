-- ===== src/Engine/Normalize/Key.antt =====
-- crates/engine/src/normalize.rs: the layout of the primary key, the checks of a tuple, and the keys
-- that are read from and written to tuples.
use etl_server_cloudberry.Prelude.{
  ℕ, ◌+◌, Option, none, some, List, [], ◌∷◌, Text, text, length, get_elem?, set, position, ltb,
  ◌==◌, if◌then◌else◌, is_yes, ℤ_discrete, ok, err, ◌>>=◌, ok_or, traverse,
}
use etl_server_cloudberry.Core.Schema.{TableSchema, ColumnSchema, primary_key, is_key_column}
use etl_server_cloudberry.Core.Change.{Cell, null, unchanged_toast, text_cell, binary, Tuple}
use etl_server_cloudberry.Engine.Normalize.{
  error, panic, Normalized, Key, PrimaryKeyLayout, Normalizer, invalid_tuple_arity,
  invalid_old_key_arity, invalid_primary_key, binary_value, is_binary,
}

-- The index of the first column with the attribute number of a key column.
unfoldable pub column_index : List ColumnSchema → ColumnSchema → Option ℕ
column_index columns key = position (λ c. is_yes (ℤ_discrete c.attnum key.attnum)) columns

-- The indexes of the key columns in the order of the schema; `enumerate` starts at `index`.
unfoldable pub schema_order : ℕ → List ColumnSchema → List ℕ
schema_order index [] = []
schema_order index (c ∷ cs) =
    let rest = schema_order (index + 1) cs in if is_key_column c then index ∷ rest else rest

-- `PrimaryKeyLayout::new`; `panic` is a failed `expect`.
unfoldable pub new_layout : TableSchema → Normalized PrimaryKeyLayout
new_layout t = do
  ordinal_indexes ← traverse (λ key. ok_or panic (column_index t.columns key)) (primary_key t)
  positions ←
      traverse (λ (i : ℕ). ok_or panic (position (λ j. j == i) (schema_order 0 t.columns)))
        ordinal_indexes
  ok (record { ordinal_indexes = ordinal_indexes; key_tuple_positions = positions })

-- `self.schema.columns[index].name`.
unfoldable pub column_name : Normalizer → ℕ → Normalized Text
column_name n index = do column ← ok_or panic (get_elem? n.schema.columns index); ok column.name

unfoldable pub validate_new_tuple : Normalizer → Tuple → Text → Normalized (Unit {0})
validate_new_tuple n tuple tuple_kind =
    if length tuple.cells == length n.schema.columns
    then elim (position is_binary tuple.cells) [
      | none ↦ ok tt
      | some index ↦ column_name n index >>= (λ column. err (error (binary_value column)))
    ]
    else err (error (invalid_tuple_arity tuple_kind (length n.schema.columns) (length tuple.cells)))

unfoldable pub key_cell : Normalizer → Cell → ℕ → Text → Normalized (List ℕ)
key_cell n (text_cell value) schema_index tuple_kind = ok value
key_cell n (binary value) schema_index tuple_kind =
    column_name n schema_index >>= (λ column. err (error (binary_value column)))
key_cell n null schema_index tuple_kind =
    column_name n schema_index
    >>= (λ column. err (error (invalid_primary_key column (text "NULL") tuple_kind)))
key_cell n unchanged_toast schema_index tuple_kind =
    column_name n schema_index
    >>= (λ column. err (error (invalid_primary_key column (text "unchanged") tuple_kind)))

-- `indexes` is zipped with the ordinal indexes of the key.
unfoldable pub key_from_selected : Normalizer → List Cell → List ℕ → List ℕ → Text → Normalized Key
key_from_selected n cells [] schema_indexes tuple_kind = ok []
key_from_selected n cells (i ∷ is) [] tuple_kind = ok []
key_from_selected n cells (i ∷ is) (s ∷ ss) tuple_kind =
    let rest = key_from_selected n cells is ss tuple_kind in
    do
      cell ← ok_or panic (get_elem? cells i)
      value ← key_cell n cell s tuple_kind
      key ← rest
      ok (value ∷ key)

abbrev pub key_from_selected_cells : Normalizer → List Cell → List ℕ → Text → Normalized Key
key_from_selected_cells n cells indexes tuple_kind =
    key_from_selected n cells indexes n.primary_key.ordinal_indexes tuple_kind

unfoldable pub key_from_cells : Normalizer → List Cell → Text → Normalized Key
key_from_cells n cells tuple_kind =
    key_from_selected_cells n cells n.primary_key.ordinal_indexes tuple_kind

unfoldable pub key_from_old_tuple : Normalizer → Tuple → Normalized Key
key_from_old_tuple n tuple =
    if length tuple.cells == length n.schema.columns
    then key_from_selected_cells n tuple.cells n.primary_key.ordinal_indexes (text "old-key")
    else if length tuple.cells == length n.primary_key.ordinal_indexes
    then key_from_selected_cells n tuple.cells n.primary_key.key_tuple_positions (text "old-key")
    else err (
        error (
          invalid_old_key_arity (length n.primary_key.ordinal_indexes) (length n.schema.columns)
            (length tuple.cells)))

-- `old_key.and_then(|key| key.0.get(ordinal))`.
unfoldable pub old_key_value : Option Key → ℕ → Option (List ℕ)
old_key_value none ordinal = none
old_key_value (some key) ordinal = get_elem? key ordinal

unfoldable pub update_key_cell : Normalizer → Option Key → ℕ → ℕ → Cell → Normalized (List ℕ)
update_key_cell n old_key ordinal index unchanged_toast = elim (old_key_value old_key ordinal) [
  | some value ↦ ok value
  | none ↦ column_name n index >>= (λ column.
      err
        (error (invalid_primary_key column (text "unchanged without an old key") (text "update"))))
]
update_key_cell n old_key ordinal index cell = key_cell n cell index (text "update")

-- `enumerate` starts at `ordinal`.
unfoldable pub update_key : Normalizer → Tuple → Option Key → ℕ → List ℕ → Normalized Key
update_key n tuple old_key ordinal [] = ok []
update_key n tuple old_key ordinal (i ∷ is) =
    let rest = update_key n tuple old_key (ordinal + 1) is in
    do
      cell ← ok_or panic (get_elem? tuple.cells i)
      value ← update_key_cell n old_key ordinal i cell
      key ← rest
      ok (value ∷ key)

unfoldable pub key_from_update_tuple : Normalizer → Tuple → Option Key → Normalized Key
key_from_update_tuple n tuple old_key = update_key n tuple old_key 0 n.primary_key.ordinal_indexes

-- `cells[*index] = value`.
unfoldable pub assign : List Cell → ℕ → Cell → Normalized (List Cell)
assign cells index value =
    if ltb index (length cells) then ok (set cells index value) else err panic

unfoldable pub write_key : List ℕ → Key → List Cell → Normalized (List Cell)
write_key [] key cells = ok cells
write_key (i ∷ is) [] cells = ok cells
write_key (i ∷ is) (value ∷ key) cells = assign cells i (text_cell value) >>= write_key is key
