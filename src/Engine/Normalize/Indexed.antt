-- ===== src/Engine/Normalize/Indexed.antt =====
-- The two key maps of the normaliser (crates/engine/src/normalize.rs) against its lineages: the
-- invariant, and its change by each kind of write.
use etl_server_cloudberry.Prelude.{
  ℕ, zero, suc, ◌≡◌, ◌≢◌, refl, ap, subst, Option, none, some, List, [], ◌∷◌, ◌++◌, length,
  get_elem?, get_elem?-set_self, get_elem?-set_ne, get_elem?-lt, get_elem?-append_length, set,
  ℕ_discrete,
}
use etl_server_cloudberry.Prelude.Assoc.{get}
use etl_server_cloudberry.Core.Change.{Tuple}
use etl_server_cloudberry.Engine.Normalize.{Key, Key-discrete, Lineage, Normalizer}
use etl_server_cloudberry.Engine.Normalize.Lineages.{add_fresh, revive}
use etl_server_cloudberry.Engine.Normalize.Inverse.{Inverse, Updates, put-Inverse, same-Inverse}

-- The key that stands at an index: that of its lineage, if there is one.
abbrev of_lineage : (Lineage → Option Key) → Option Lineage → Option Key
of_lineage key none = none
of_lineage key (some l) = key l

abbrev pub key_at : (Lineage → Option Key) → List Lineage → ℕ → Option Key
key_at key ls i = of_lineage key (get_elem? ls i)

abbrev pub current_of : Lineage → Option Key
current_of l = l.current_key

abbrev pub origin_of : Lineage → Option Key
origin_of l = l.origin_key

-- `current_by_key` lists exactly the current keys, `origin_by_key` exactly the batch-start keys,
-- each at its lineage.
pub record IsIndexed (n : Normalizer) : Type 0 where
  pub current : Inverse Key-discrete (key_at current_of n.lineages) n.current_by_key
  pub origin : Inverse Key-discrete (key_at origin_of n.lineages) n.origin_by_key

get_elem?-append_ne :
    (ls : List Lineage) (l : Lineage) (j : ℕ)
    → length ls ≢ j
    → get_elem? (ls ++ l ∷ []) j ≡ get_elem? ls j
get_elem?-append_ne [] l zero h = absurd (h refl)
get_elem?-append_ne [] l (suc j) h = refl
get_elem?-append_ne (x ∷ ls) l zero h = refl
get_elem?-append_ne (x ∷ ls) l (suc j) h = get_elem?-append_ne ls l j (λ e. h (ap suc e))

get_elem?-length : (ls : List Lineage) → get_elem? ls (length ls) ≡ none
get_elem?-length [] = refl
get_elem?-length (x ∷ ls) = get_elem?-length ls

module _ (key : Lineage → Option Key) where
  pub append-Updates :
      (ls : List Lineage) (l : Lineage)
      → Updates Key-discrete (key_at key ls) (key_at key (ls ++ l ∷ [])) (length ls) (key l)
  append-Updates ls l = record {
    here = rw (get_elem?-append_length ls l) refl;
    there = λ j h. rw (get_elem?-append_ne ls l j h) refl;
  }

  pub key_at-length : (ls : List Lineage) → key_at key ls (length ls) ≡ none
  key_at-length ls = rw (get_elem?-length ls) refl

  -- A lineage without the key at the end changes no place.
  pub append_keyless :
      (ls : List Lineage) (l : Lineage) (j : ℕ)
      → key l ≡ none
      → key_at key (ls ++ l ∷ []) j ≡ key_at key ls j
  append_keyless ls l j h = elim (ℕ_discrete (length ls) j) [
    | yes e ↦
        subst (λ (x : ℕ). key_at key (ls ++ l ∷ []) x ≡ key_at key ls x) e
          (rw (get_elem?-append_length ls l, get_elem?-length ls) h)
    | no e ↦ rw (get_elem?-append_ne ls l j e) refl
  ]

  pub set-Updates :
      (ls : List Lineage) (i : ℕ) (l : Lineage) {old : Lineage}
      → get_elem? ls i ≡ some old
      → Updates Key-discrete (key_at key ls) (key_at key (set ls i l)) i (key l)
  set-Updates ls i l at = record {
    here = rw (get_elem?-set_self ls i l (get_elem?-lt ls i at)) refl;
    there = λ j h. rw (get_elem?-set_ne ls i j l h) refl;
  }

  -- A write that keeps the lineage's key changes no place.
  pub set_same :
      (ls : List Lineage) (i : ℕ) (l : Lineage) {old : Lineage}
      → get_elem? ls i ≡ some old
      → key l ≡ key old
      → (j : ℕ) → key_at key (set ls i l) j ≡ key_at key ls j
  set_same ls i l {old} at h j = elim (ℕ_discrete i j) [
    | yes e ↦
        subst (λ (x : ℕ). key_at key (set ls i l) x ≡ key_at key ls x) e
          (rw (get_elem?-set_self ls i l (get_elem?-lt ls i at), at) h)
    | no e ↦ rw (get_elem?-set_ne ls i j l e) refl
  ]

pub add_fresh-IsIndexed :
    (n : Normalizer) (k : Key) (new : Tuple) (sequence : ℕ)
    → IsIndexed n
    → get Key-discrete k n.current_by_key ≡ none
    → IsIndexed (add_fresh n k new sequence)
unfolding add_fresh
add_fresh-IsIndexed n k new sequence v free = record {
  current =
      put-Inverse Key-discrete _ _ n.current_by_key k (length n.lineages) v.current
        (append-Updates current_of n.lineages _) (key_at-length current_of n.lineages) free;
  origin =
      same-Inverse Key-discrete _ _ n.origin_by_key v.origin
        (λ j. append_keyless origin_of n.lineages _ j refl);
}

pub revive-IsIndexed :
    (n : Normalizer) (k : Key) (new : Tuple) (i : ℕ) (l : Lineage)
    → IsIndexed n
    → get Key-discrete k n.current_by_key ≡ none
    → get_elem? n.lineages i ≡ some l
    → l.current_key ≡ none
    → IsIndexed (revive n k new i l)
unfolding revive
revive-IsIndexed n k new i l v free at dead = record {
  current =
      put-Inverse Key-discrete _ _ n.current_by_key k i v.current
        (set-Updates current_of n.lineages i _ at) (rw at dead) free;
  origin =
      same-Inverse Key-discrete _ _ n.origin_by_key v.origin
        (set_same origin_of n.lineages i _ at refl);
}
