-- ===== src/Engine/Normalize/Runs.antt =====
-- Whole steps and runs of the normaliser (crates/engine/src/normalize.rs) under its invariant.
use etl_server_cloudberry.Prelude.{
  ℕ, ◌≡◌, refl, sym, subst, false, ◌⊎◌, inl, inr, Option, none, some, List, [], ◌∷◌, get_elem?,
  get_elem?-lt, get_elem?-set_self, get_elem?-append_length, set, arith, ok, Result-cases,
  Option-cases, text, saturating_add,
}
use etl_server_cloudberry.Prelude.Assoc.{get, remove}
use etl_server_cloudberry.Core.Schema.{TableSchema}
use etl_server_cloudberry.Core.Change.{Tuple, RowChange, update, delete, TableChange}
use etl_server_cloudberry.Core.Change
use etl_server_cloudberry.Engine.Normalize.{Key, Key-discrete, Lineage, Normalizer}
use etl_server_cloudberry.Engine.Normalize.Lineages.{
  new_normalizer, find_live, update_lineage, update_row, take_live, end_lineage, delete_row,
  push_row, push, merge, baseline_unless_known, key_or, old_key_of,
}
use etl_server_cloudberry.Engine.Normalize.Key.{
  key_from_cells, key_from_old_tuple, key_from_update_tuple,
}
use etl_server_cloudberry.Engine.Normalize.Finish.{push_all}
use etl_server_cloudberry.Engine.Normalize.Inverse.{drop-Inverse, same-Inverse}
use etl_server_cloudberry.Engine.Normalize.Indexed.{
  current_of, origin_of, IsIndexed, set-Updates, set_same,
}
use etl_server_cloudberry.Engine.Normalize.Steps.{
  insert_row-IsIndexed, find_live-IsIndexed, move_key-IsIndexed, baseline-inversion,
  with_baseline-IsIndexed,
}

-- Rewriting a lineage without its keys.
same_keys-IsIndexed :
    (n : Normalizer) (i : ℕ) (l old : Lineage)
    → IsIndexed n
    → get_elem? n.lineages i ≡ some old
    → l.current_key ≡ old.current_key
    → l.origin_key ≡ old.origin_key
    → IsIndexed (record n { lineages = set n.lineages i l })
same_keys-IsIndexed n i l old v at e f = record {
  current =
      same-Inverse Key-discrete _ _ n.current_by_key v.current
        (set_same current_of n.lineages i l at e);
  origin =
      same-Inverse Key-discrete _ _ n.origin_by_key v.origin
        (set_same origin_of n.lineages i l at f);
}

update_lineage-IsIndexed :
    (n : Normalizer) (i : ℕ) (new : Tuple) {n' : Normalizer}
    → IsIndexed n
    → update_lineage n i new ≡ ok n'
    → IsIndexed n'
unfolding update_lineage
update_lineage-IsIndexed n i new v h = elim (Option-cases (get_elem? n.lineages i)) [
  | inl out ↦ absurd (ground arith)
  | inr (l, at) ↦
      let merged : Lineage = record l { cells = merge l.cells new.cells } in
      let stored : Normalizer = record n { lineages = set n.lineages i merged } in
      let kept = get_elem?-set_self n.lineages i merged (get_elem?-lt n.lineages i at) in
      let w = same_keys-IsIndexed n i merged l v at refl refl in
      elim (Result-cases (key_from_cells stored merged.cells (text "update"))) [
        | inr (x, e) ↦ absurd (ground arith)
        | inl (k, e) ↦ elim (Option-cases l.current_key) [
          | inl dead ↦ absurd (ground arith)
          | inr (p, live) ↦ move_key-IsIndexed stored i merged p k w kept live (ground arith)
        ]
      ]
]

update_row-IsIndexed :
    (n : Normalizer) (old_tuple : Option Tuple) (new : Tuple) (sequence : ℕ) {n' : Normalizer}
    → IsIndexed n
    → update_row n old_tuple new sequence ≡ ok n'
    → IsIndexed n'
unfolding update_row
update_row-IsIndexed n old_tuple new sequence v h = elim (Result-cases (old_key_of n old_tuple)) [
  | inr (x, a) ↦ absurd (ground arith)
  | inl (old, a) ↦ elim (Result-cases (key_from_update_tuple n new old)) [
    | inr (x, b) ↦ absurd (ground arith)
    | inl (k, b) ↦ elim (Result-cases (find_live n (key_or old k) sequence)) [
      | inr (x, c) ↦ absurd (ground arith)
      | inl ((i, m), c) ↦
          update_lineage-IsIndexed m i new (find_live-IsIndexed n (key_or old k) sequence v c)
            (ground arith)
    ]
  ]
]

-- The lineage of a key that was live ends.
end_live-IsIndexed :
    (n : Normalizer) (k : Key) (i : ℕ) {n' : Normalizer}
    → IsIndexed n
    → get Key-discrete k n.current_by_key ≡ some i
    → end_lineage (record n { current_by_key = remove Key-discrete k n.current_by_key }) i ≡ ok n'
    → IsIndexed n'
unfolding end_lineage
end_live-IsIndexed n k i {n'} v found h = elim (Option-cases (get_elem? n.lineages i)) [
  | inl out ↦ absurd (ground arith)
  | inr (l, at) ↦
      let ended : Normalizer = record n {
        current_by_key = remove Key-discrete k n.current_by_key;
        lineages = set n.lineages i (record l { current_key = none });
      } in
      let same : ended ≡ n' = ground arith in
      subst IsIndexed same (record {
        current =
            drop-Inverse Key-discrete _ _ n.current_by_key k i v.current
              (set-Updates current_of n.lineages i _ at) found;
        origin =
            same-Inverse Key-discrete _ _ n.origin_by_key v.origin
              (set_same origin_of n.lineages i _ at refl);
      })
]

-- The lineage that a delete has started has no current key; ending it changes nothing.
end_dead-IsIndexed :
    (n : Normalizer) (i : ℕ) (l : Lineage) {n' : Normalizer}
    → IsIndexed n
    → get_elem? n.lineages i ≡ some l
    → l.current_key ≡ none
    → end_lineage n i ≡ ok n'
    → IsIndexed n'
unfolding end_lineage
end_dead-IsIndexed n i l {n'} v at dead h =
    let ended : Normalizer = record n {
      lineages = set n.lineages i (record l { current_key = none });
    } in
    let same : ended ≡ n' = ground arith in
    subst IsIndexed same (same_keys-IsIndexed n i _ l v at (sym dead) refl)

delete_row-IsIndexed :
    (n : Normalizer) (old_tuple : Tuple) (sequence : ℕ) {n' : Normalizer}
    → IsIndexed n
    → delete_row n old_tuple sequence ≡ ok n'
    → IsIndexed n'
unfolding delete_row take_live
delete_row-IsIndexed n old_tuple sequence v h =
    elim (Result-cases (key_from_old_tuple n old_tuple)) [
      | inr (x, a) ↦ absurd (ground arith)
      | inl (k, a) ↦ elim (Option-cases (get Key-discrete k n.current_by_key)) [
        | inr (i, e) ↦ end_live-IsIndexed n k i v e (ground arith)
        | inl e ↦
            elim (Result-cases (
              baseline_unless_known n k sequence false
                "delete references a key whose baseline lineage has already moved or died")) [
                  | inr (x, b) ↦ absurd (ground arith)
                  | inl ((i, m), b) ↦
                      let (new, at, cells, same) = baseline-inversion n k sequence false _ b in
                      let w = with_baseline-IsIndexed n k sequence false cells v new e in
                      end_dead-IsIndexed m i
                        (record {
                          origin_key = some k;
                          current_key = none;
                          cells = cells;
                          first_sequence = sequence;
                        })
                        (subst IsIndexed (sym same) w)
                        (rw (same, at) (get_elem?-append_length n.lineages _)) refl (ground arith)
                ]
      ]
    ]

push_row-IsIndexed :
    (n : Normalizer) (change : RowChange) (sequence : ℕ) {n' : Normalizer}
    → IsIndexed n
    → push_row n change sequence ≡ ok n'
    → IsIndexed n'
unfolding push_row
push_row-IsIndexed n (Change.insert new) sequence v h = insert_row-IsIndexed n new sequence v h
push_row-IsIndexed n (update old new) sequence v h = update_row-IsIndexed n old new sequence v h
push_row-IsIndexed n (delete old) sequence v h = delete_row-IsIndexed n old sequence v h

push-inversion :
    (n : Normalizer) (change : TableChange) {n' : Normalizer}
    → push n change ≡ ok n'
    → push_row (record n { sequence = saturating_add n.sequence 1 }) change.change n.sequence
      ≡ ok n'
unfolding push
push-inversion n change h = ground arith

-- A change that the normaliser accepts keeps its maps and its lineages in agreement: the map of
-- current keys lists exactly the current keys of the lineages, each at its lineage, and the map of
-- batch-start keys exactly the batch-start keys.
pub push-IsIndexed :
    (n : Normalizer) (change : TableChange) {n' : Normalizer}
    → IsIndexed n
    → push n change ≡ ok n'
    → IsIndexed n'
push-IsIndexed n change v h =
    push_row-IsIndexed (record n { sequence = saturating_add n.sequence 1 }) change.change
      n.sequence (record { current = v.current; origin = v.origin }) (push-inversion n change h)

pub push_all-IsIndexed :
    (changes : List TableChange) (n : Normalizer) {n' : Normalizer}
    → IsIndexed n
    → push_all n changes ≡ ok n'
    → IsIndexed n'
unfolding push_all
push_all-IsIndexed [] n v h = subst IsIndexed (ground arith) v
push_all-IsIndexed (c ∷ cs) n v h = elim (Result-cases (push n c)) [
  | inr (x, e) ↦ absurd (ground arith)
  | inl (m, e) ↦ push_all-IsIndexed cs m (push-IsIndexed n c v e) (ground arith)
]

pub new_normalizer-IsIndexed :
    (schema : TableSchema) {n : Normalizer} → new_normalizer schema ≡ ok n → IsIndexed n
unfolding new_normalizer get
new_normalizer-IsIndexed schema h = record {
  current = record { found = λ k i e. ground arith; listed = λ k i e. ground arith };
  origin = record { found = λ k i e. ground arith; listed = λ k i e. ground arith };
}

-- After any accepted changes from a new normaliser, two different lineages have neither the same
-- current key nor the same batch-start key.
pub current_key_unique :
    (schema : TableSchema) (changes : List TableChange) (i j : ℕ) (a b : Lineage) (k : Key)
    {start n : Normalizer}
    → new_normalizer schema ≡ ok start
    → push_all start changes ≡ ok n
    → get_elem? n.lineages i ≡ some a
    → get_elem? n.lineages j ≡ some b
    → ((a.current_key ≡ some k) × (b.current_key ≡ some k))
      ⊎ ((a.origin_key ≡ some k) × (b.origin_key ≡ some k))
    → i ≡ j
current_key_unique schema changes i j a b k {start} {n} h g p q same =
    let v : IsIndexed n = push_all-IsIndexed changes start (new_normalizer-IsIndexed schema h) g in
    elim same [
      | inl (x, y) ↦
          let s = v.current.listed k i (rw p x) in let t = v.current.listed k j (rw q y) in cc
      | inr (x, y) ↦
          let s = v.origin.listed k i (rw p x) in let t = v.origin.listed k j (rw q y) in cc
    ]
