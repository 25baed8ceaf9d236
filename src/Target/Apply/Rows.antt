-- ===== src/Target/Apply/Rows.antt =====
-- The staging rows of crates/target-cloudberry/src/apply.rs as the database reads them.
use etl_server_cloudberry.Prelude.{
  ok_or, ◌≡◌, refl, sym, ◌∙◌, ap, ap₂, Option, none, some, List, [], ◌∷◌, ◌++◌, Bytes, text,
  get_elem?, map, bind_ok, then_ok, ok_inj, ok_or-some, ok, err, traverse, not, subst,
}
use etl_server_cloudberry.Core.Change.{Cell, null, unchanged_toast, text_cell, binary}
use etl_server_cloudberry.Engine.Normalize.{StageOperation, upsert, delete, move, StagingRow}
use etl_server_cloudberry.Target.Copy.{encode_row}
use etl_server_cloudberry.Target.Copy.RoundTrip.{read_row, read_row-encode_row}
use etl_server_cloudberry.Target.Apply.{
  is_unchanged, flag, PresenceColumn, OldKeyColumn, ApplyPlan, operation_cell, placeholder,
  presence_cell, old_key_fields, staging_fields, of_copy, encode_staging_row, check_keys,
  check_operation, check_old_key, panic,
}

-- The fields of a staging row: the letter of its operation, its cells with nothing in place of what
-- is unchanged, for each column that can be unchanged whether it is not, and whether there is an old
-- key, with the old key or nothing.
abbrev pub letter : StageOperation → Cell
letter upsert = text_cell (text "U")
letter delete = text_cell (text "D")
letter move = text_cell (text "M")

abbrev pub shown : Cell → Cell
shown unchanged_toast = null
shown null = null
shown (text_cell t) = text_cell t
shown (binary b) = binary b

abbrev pub presence_of : Cell → Cell
presence_of unchanged_toast = text_cell (text "f")
presence_of _ = text_cell (text "t")

abbrev pub AllPresent : List Cell → List PresenceColumn → List Cell → Type 0
AllPresent cells [] [] = Unit {0}
AllPresent cells (c ∷ cs) (f ∷ fs) =
    ((cell : Cell) × (get_elem? cells c.source_column_index ≡ some cell) × (f ≡ presence_of cell))
    × AllPresent cells cs fs
AllPresent cells _ _ = ⊥

abbrev pub old_fields : List OldKeyColumn → Option (List Cell) → List Cell
old_fields columns none = text_cell (text "f") ∷ map (λ c. null) columns
old_fields columns (some key) = text_cell (text "t") ∷ key

-- What the database reads for a row.
pub record IsRead (plan : ApplyPlan) (row : StagingRow) (bytes : Bytes) : Type 0 where
  pub presence : List Cell
  pub present : AllPresent row.cells plan.copy_layout.presence_columns presence
  pub fields :
      read_row bytes
      ≡ some (
          letter row.operation
          ∷ (map shown row.cells
              ++ (presence ++ old_fields plan.copy_layout.old_key_columns row.old_key)))

abbrev pub EachRead : ApplyPlan → List StagingRow → List Bytes → Type 0
EachRead plan [] [] = Unit {0}
EachRead plan (r ∷ rs) (b ∷ bs) = IsRead plan r b × EachRead plan rs bs
EachRead plan _ _ = ⊥

letter-operation_cell : (o : StageOperation) → operation_cell o ≡ letter o
unfolding operation_cell
letter-operation_cell upsert = refl
letter-operation_cell delete = refl
letter-operation_cell move = refl

shown-placeholder : (cells : List Cell) → map placeholder cells ≡ map shown cells
unfolding placeholder
shown-placeholder [] = refl
shown-placeholder (null ∷ cs) = ap (λ x. null ∷ x) (shown-placeholder cs)
shown-placeholder (unchanged_toast ∷ cs) = ap (λ x. null ∷ x) (shown-placeholder cs)
shown-placeholder (text_cell t ∷ cs) = ap (λ x. text_cell t ∷ x) (shown-placeholder cs)
shown-placeholder (binary b ∷ cs) = ap (λ x. binary b ∷ x) (shown-placeholder cs)

old_fields-old_key_fields :
    (columns : List OldKeyColumn) (key : Option (List Cell))
    → old_key_fields columns key ≡ old_fields columns key
unfolding old_key_fields
old_fields-old_key_fields columns none = refl
old_fields-old_key_fields columns (some key) = refl

flag-presence_of :
    (cell : Cell) {f : Cell} → flag (not (is_unchanged cell)) ≡ f → f ≡ presence_of cell
flag-presence_of null h = sym h
flag-presence_of unchanged_toast h = sym h
flag-presence_of (text_cell t) h = sym h
flag-presence_of (binary b) h = sym h

presence_cell-of :
    (cells : List Cell) (c : PresenceColumn) {f : Cell}
    → presence_cell cells c ≡ ok f
    → (cell : Cell) × (get_elem? cells c.source_column_index ≡ some cell) × (f ≡ presence_of cell)
unfolding presence_cell
presence_cell-of cells c h =
    let (cell, e, h1) = bind_ok (ok_or panic (get_elem? cells c.source_column_index)) h in
    (cell, ok_or-some panic _ e, flag-presence_of cell (ok_inj h1))

traverse-AllPresent :
    (cells : List Cell) (cs : List PresenceColumn) {fs : List Cell}
    → traverse (presence_cell cells) cs ≡ ok fs
    → AllPresent cells cs fs
traverse-AllPresent cells [] h = subst (AllPresent cells []) (ok_inj h) tt
traverse-AllPresent cells (c ∷ cs) h =
    let (y, e, h1) = bind_ok (presence_cell cells c) h in
    let (ys, f, h2) = bind_ok (traverse (presence_cell cells) cs) h1 in
    subst (AllPresent cells (c ∷ cs)) (ok_inj h2)
      (presence_cell-of cells c e, traverse-AllPresent cells cs f)

of_copy_ok : (r : _) {bytes : Bytes} → of_copy r ≡ ok bytes → r ≡ ok bytes
of_copy_ok (ok b) h = ap ok (ok_inj h)
of_copy_ok (err e) h = absurd (cc)

encode_staging_row-IsRead :
    (plan : ApplyPlan) (row : StagingRow) {bytes : Bytes}
    → encode_staging_row plan row ≡ ok bytes
    → IsRead plan row bytes
unfolding encode_staging_row staging_fields
encode_staging_row-IsRead plan row {bytes} h =
    let (a, h1) = then_ok _ h in
    let (b, h2) = then_ok (check_keys plan.table.columns row.cells) h1 in
    let (c, h3) = then_ok (check_operation row.operation row.old_key) h2 in
    let (d, h4) = then_ok (check_old_key plan.copy_layout.old_key_columns row.old_key) h3 in
    let (fields, e, h5) = bind_ok (staging_fields plan row) h4 in
    let (presence, p, same) =
      bind_ok (traverse (presence_cell row.cells) plan.copy_layout.presence_columns) e in
    record {
      presence = presence;
      present = traverse-AllPresent row.cells plan.copy_layout.presence_columns p;
      fields =
          read_row-encode_row fields bytes (of_copy_ok (encode_row fields) h5)
          ∙ ap some (
              sym (ok_inj same)
              ∙ ap₂ (λ x y. x ∷ y) (letter-operation_cell row.operation)
                  (ap₂ (λ x y. x ++ (presence ++ y)) (shown-placeholder row.cells)
                    (old_fields-old_key_fields plan.copy_layout.old_key_columns row.old_key)));
    }

pub traverse-EachRead :
    (plan : ApplyPlan) (rows : List StagingRow) {bs : List Bytes}
    → traverse (encode_staging_row plan) rows ≡ ok bs
    → EachRead plan rows bs
traverse-EachRead plan [] h = subst (EachRead plan []) (ok_inj h) tt
traverse-EachRead plan (r ∷ rs) h =
    let (y, e, h1) = bind_ok (encode_staging_row plan r) h in
    let (ys, f, h2) = bind_ok (traverse (encode_staging_row plan) rs) h1 in
    subst (EachRead plan (r ∷ rs)) (ok_inj h2)
      (encode_staging_row-IsRead plan r e, traverse-EachRead plan rs f)
