-- ===== src/Engine/Normalize/Steps.antt =====
-- The parts of a step of the normaliser (crates/engine/src/normalize.rs) under its invariant.
use etl_server_cloudberry.Prelude.{
  ℕ, ◌≡◌, ◌≢◌, refl, sym, ◌∙◌, subst, Bool, true, false, ◌⊎◌, inl, inr, Option, none, some, List,
  [], ◌∷◌, ◌++◌, length, get_elem?, set, arith, ite, if_neg, if_pos, ℕ_discrete, ok, Option-cases,
  Result-cases, text, replicate, if◌then◌else◌,
}
use Prim.Native.String.{String}
use etl_server_cloudberry.Prelude.Assoc.{get, insert, remove, get-remove_ne}
use etl_server_cloudberry.Core.Change.{Cell, unchanged_toast, Tuple}
use etl_server_cloudberry.Engine.Normalize.{Key, Key-discrete, Lineage, Normalizer}
use etl_server_cloudberry.Engine.Normalize.Lineages.{
  add_fresh, revive, insert_key, insert_row, new_baseline, baseline_unless_known, find_live,
  move_key, is_other,
}
use etl_server_cloudberry.Engine.Normalize.Key.{key_from_cells, write_key}
use etl_server_cloudberry.Engine.Normalize.Inverse.{
  Inverse, put-Inverse, drop-Inverse, same-Inverse,
}
use etl_server_cloudberry.Engine.Normalize.Indexed.{
  key_at, current_of, origin_of, IsIndexed, append-Updates, key_at-length, append_keyless,
  set-Updates, set_same, add_fresh-IsIndexed, revive-IsIndexed,
}

insert_key-IsIndexed :
    (n : Normalizer) (k : Key) (new : Tuple) (sequence : ℕ) {n' : Normalizer}
    → IsIndexed n
    → get Key-discrete k n.current_by_key ≡ none
    → insert_key n k new sequence ≡ ok n'
    → IsIndexed n'
unfolding insert_key
insert_key-IsIndexed n k new sequence {n'} v free h =
    elim (Option-cases (get Key-discrete k n.origin_by_key)) [
      | inl e ↦
          let same : add_fresh n k new sequence ≡ n' = ground arith in
          subst IsIndexed same (add_fresh-IsIndexed n k new sequence v free)
      | inr (i, e) ↦ elim (Option-cases (get_elem? n.lineages i)) [
        | inl out ↦ absurd (ground arith)
        | inr (l, at) ↦ elim (Option-cases l.current_key) [
          | inl dead ↦
              let same : revive n k new i l ≡ n' = ground arith in
              subst IsIndexed same (revive-IsIndexed n k new i l v free at dead)
          | inr (c, live) ↦
              let same : add_fresh n k new sequence ≡ n' = ground arith in
              subst IsIndexed same (add_fresh-IsIndexed n k new sequence v free)
        ]
      ]
    ]

insert_row-inversion :
    (n : Normalizer) (new : Tuple) (sequence : ℕ) {n' : Normalizer}
    → insert_row n new sequence ≡ ok n'
    → (k : Key) × (get Key-discrete k n.current_by_key ≡ none)
      × (insert_key n k new sequence ≡ ok n')
unfolding insert_row
insert_row-inversion n new sequence h =
    elim (Result-cases (key_from_cells n new.cells (text "insert"))) [
      | inr (x, e) ↦ absurd (ground arith)
      | inl (k, e) ↦ (k, ground arith, ground arith)
    ]

pub insert_row-IsIndexed :
    (n : Normalizer) (new : Tuple) (sequence : ℕ) {n' : Normalizer}
    → IsIndexed n
    → insert_row n new sequence ≡ ok n'
    → IsIndexed n'
insert_row-IsIndexed n new sequence v h =
    let (k, free, e) = insert_row-inversion n new sequence h in
    insert_key-IsIndexed n k new sequence v free e

-- What a new baseline adds, for a key that starts no lineage yet.
abbrev pub with_baseline : Normalizer → Key → ℕ → Bool → List Cell → Normalizer
with_baseline n key sequence live cells = record n {
  lineages =
      n.lineages
      ++ record {
        origin_key = some key;
        current_key = if live then some key else none;
        cells = cells;
        first_sequence = sequence;
      }
        ∷ [];
  origin_by_key = insert Key-discrete key (length n.lineages) n.origin_by_key;
  current_by_key =
      if live
      then insert Key-discrete key (length n.lineages) n.current_by_key
      else n.current_by_key;
}

pub baseline-inversion :
    (n : Normalizer) (k : Key) (sequence : ℕ) (live : Bool) (reason : String) {i : ℕ}
    {n' : Normalizer}
    → baseline_unless_known n k sequence live reason ≡ ok (i, n')
    → (get Key-discrete k n.origin_by_key ≡ none)
      × (i ≡ length n.lineages)
      × (cells : List Cell) × (n' ≡ with_baseline n k sequence live cells)
unfolding baseline_unless_known new_baseline
baseline-inversion n k sequence live reason h =
    elim (Result-cases (
      write_key n.primary_key.ordinal_indexes k
        (replicate (length n.schema.columns) unchanged_toast))) [
          | inr (x, e) ↦ absurd (ground arith)
          | inl (cells, e) ↦ (ground arith, ground arith, cells, ground arith)
        ]

pub with_baseline-IsIndexed :
    (n : Normalizer) (k : Key) (sequence : ℕ) (live : Bool) (cells : List Cell)
    → IsIndexed n
    → get Key-discrete k n.origin_by_key ≡ none
    → get Key-discrete k n.current_by_key ≡ none
    → IsIndexed (with_baseline n k sequence live cells)
with_baseline-IsIndexed n k sequence true cells v new free = record {
  current =
      put-Inverse Key-discrete _ _ n.current_by_key k (length n.lineages) v.current
        (append-Updates current_of n.lineages _) (key_at-length current_of n.lineages) free;
  origin =
      put-Inverse Key-discrete _ _ n.origin_by_key k (length n.lineages) v.origin
        (append-Updates origin_of n.lineages _) (key_at-length origin_of n.lineages) new;
}
with_baseline-IsIndexed n k sequence false cells v new free = record {
  current =
      same-Inverse Key-discrete _ _ n.current_by_key v.current
        (λ j. append_keyless current_of n.lineages _ j refl);
  origin =
      put-Inverse Key-discrete _ _ n.origin_by_key k (length n.lineages) v.origin
        (append-Updates origin_of n.lineages _) (key_at-length origin_of n.lineages) new;
}

pub find_live-IsIndexed :
    (n : Normalizer) (k : Key) (sequence : ℕ) {i : ℕ} {n' : Normalizer}
    → IsIndexed n
    → find_live n k sequence ≡ ok (i, n')
    → IsIndexed n'
unfolding find_live
find_live-IsIndexed n k sequence {i} {n'} v h =
    elim (Option-cases (get Key-discrete k n.current_by_key)) [
      | inr (j, e) ↦ subst IsIndexed (ground arith) v
      | inl e ↦
          let r : baseline_unless_known n k sequence true
                "update references a key whose baseline lineage has already moved or died"
              ≡ ok (i, n') =
            ground arith in
          let (new, at, cells, same) = baseline-inversion n k sequence true _ r in
          subst IsIndexed (sym same) (with_baseline-IsIndexed n k sequence true cells v new e)
    ]

-- The lineage of a live key takes another key that no lineage has.
rekey-Inverse :
    (n : Normalizer) (i : ℕ) (l old : Lineage) (p k : Key)
    → Inverse Key-discrete (key_at current_of n.lineages) n.current_by_key
    → get_elem? n.lineages i ≡ some old
    → old.current_key ≡ some p
    → l.current_key ≡ some k
    → p ≢ k
    → get Key-discrete k n.current_by_key ≡ none
    → Inverse Key-discrete
        (key_at current_of (set n.lineages i l))
        (insert Key-discrete k i (remove Key-discrete p n.current_by_key))
rekey-Inverse n i l old p k v at live e other free =
    let f = key_at current_of n.lineages in
    let gone : ℕ → Option Key = λ j. ite (ℕ_discrete i j) none (f j) in
    let u = set-Updates current_of n.lineages i l at in
    let empty : gone i ≡ none = if_pos (ℕ_discrete i i) refl none (f i) in
    put-Inverse Key-discrete gone _ (remove Key-discrete p n.current_by_key) k i
      (drop-Inverse Key-discrete f gone n.current_by_key p i v
        (record { here = empty; there = λ j h. if_neg (ℕ_discrete i j) h none (f j) })
        (v.listed p i (rw at live)))
      (record {
        here = u.here ∙ e;
        there = λ j h. u.there j h ∙ sym (if_neg (ℕ_discrete i j) h none (f j));
      })
      empty (get-remove_ne Key-discrete p k n.current_by_key other ∙ free)

not_other : (o : Option ℕ) (i : ℕ) → is_other o i ≡ false → o ≢ some i → o ≡ none
not_other none i h k = refl
not_other (some j) i h k = absurd (ground arith)

move_key-cases :
    (n : Normalizer) (i : ℕ) (l : Lineage) (p k : Key) {n' : Normalizer}
    → move_key n i l p k ≡ ok n'
    → ((n' ≡ n)
        ⊎ ((k ≢ p)
            × (is_other (get Key-discrete k n.current_by_key) i ≡ false)
            × (n' ≡ record n {
              current_by_key = insert Key-discrete k i (remove Key-discrete p n.current_by_key);
              lineages = set n.lineages i (record l { current_key = some k });
            })))
unfolding move_key
move_key-cases n i l p k h = ground arith

pub move_key-IsIndexed :
    (n : Normalizer) (i : ℕ) (l : Lineage) (p k : Key) {n' : Normalizer}
    → IsIndexed n
    → get_elem? n.lineages i ≡ some l
    → l.current_key ≡ some p
    → move_key n i l p k ≡ ok n'
    → IsIndexed n'
move_key-IsIndexed n i l p k v at live h = elim (move_key-cases n i l p k h) [
  | inl e ↦ subst IsIndexed (sym e) v
  | inr (other, mine, e) ↦
      let free = not_other (get Key-discrete k n.current_by_key) i mine (λ found. other (
        let a : some p ≡ some k = sym live ∙ sym (rw at refl) ∙ v.current.found k i found in cc)) in
      subst IsIndexed (sym e) (record {
        current =
            rekey-Inverse n i (record l { current_key = some k }) l p k v.current at live refl
              (λ s. other (sym s)) free;
        origin =
            same-Inverse Key-discrete _ _ n.origin_by_key v.origin
              (set_same origin_of n.lineages i _ at refl);
      })
]
