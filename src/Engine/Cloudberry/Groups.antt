-- ===== src/Engine/Cloudberry/Groups.antt =====
-- The map of the row changes by table, in crates/engine/src/adapters/cloudberry.rs.
use etl_server_cloudberry.Prelude.{
  is_yes-not, subst, ap₂, ◌≡◌, refl, sym, ap, ◌∙◌, true, false, ◌⊎◌, inl, inr, List, [], ◌∷◌, ◌++◌,
  All, All-map, keep, Bool-cases, is_yes, is_yes-of, if◌then◌else◌, arith,
}
use mathlib.Core.List.{append-nil}
use etl_server_cloudberry.Core.Change.{TableChange, TransactionChange, row, SourceTransaction}
use etl_server_cloudberry.Engine.Cloudberry.{
  ℕ_discrete, TableKey, TableKey-discrete, Grouped, key_ltb, change_key, group_push,
}

-- The specification: the row changes of a batch in order, and those of one table among them.
abbrev pub rows_in : List TransactionChange → List TableChange
rows_in [] = []
rows_in (row c ∷ cs) = c ∷ rows_in cs
rows_in (_ ∷ cs) = rows_in cs

abbrev pub batch_rows : List SourceTransaction → List TableChange
batch_rows [] = []
batch_rows (t ∷ ts) = rows_in t.changes ++ batch_rows ts

abbrev pub rows_of : TableKey → List TableChange → List TableChange
rows_of k cs = keep (λ c. is_yes (TableKey-discrete (change_key c) k)) cs

abbrev pub changes_at : TableKey → Grouped → List TableChange
changes_at k [] = []
changes_at k ((j, cs) ∷ g) =
    let rest = changes_at k g in if is_yes (TableKey-discrete j k) then cs else rest

-- The keys stand in strictly ascending order.
abbrev pub IsOrdered : Grouped → Type 0
IsOrdered [] = Unit {0}
IsOrdered ((k, cs) ∷ g) = All (λ e. key_ltb k e.0 ≡ true) g × IsOrdered g

key_ltb_irrefl : (k : TableKey) → key_ltb k k ≡ false
unfolding key_ltb
key_ltb_irrefl (a, b) = ground arith

key_ltb_trans : (j k l : TableKey) → key_ltb j k ≡ true → key_ltb k l ≡ true → key_ltb j l ≡ true
unfolding key_ltb
key_ltb_trans (a, b) (c, d) (e, f) h i = ground arith

key_ltb_total : (j k : TableKey) → ¬ (j ≡ k) → key_ltb k j ≡ false → key_ltb j k ≡ true
unfolding key_ltb
key_ltb_total (a, b) (c, d) n h = elim (ℕ_discrete a c) [
  | no m ↦ ground arith
  | yes e ↦ elim (ℕ_discrete b d) [
    | no m ↦ ground arith
    | yes f ↦ absurd (n (ap₂ (λ x y. (x, y)) e f))
  ]
]

changes_at-above :
    (k : TableKey) (g : Grouped) → All (λ e. key_ltb k e.0 ≡ true) g → changes_at k g ≡ []
changes_at-above k [] h = refl
changes_at-above k ((j, cs) ∷ g) h =
    elim (TableKey-discrete j k) as (λ d. (if is_yes d then cs else changes_at k g) ≡ []) [
      | yes e ↦ absurd (ground (arith, key_ltb_irrefl k))
      | no n ↦ changes_at-above k g h.1
    ]

above_group_push :
    (k : TableKey) (c : TableChange) (g : Grouped)
    → key_ltb k (change_key c) ≡ true
    → All (λ e. key_ltb k e.0 ≡ true) g
    → All (λ e. key_ltb k e.0 ≡ true) (group_push c g)
unfolding group_push
above_group_push k c [] h a = (h, tt)
above_group_push k c ((j, cs) ∷ g) h a =
    elim (Bool-cases (is_yes (TableKey-discrete j (change_key c)))) [
      | inl e ↦ rw e a
      | inr e ↦ elim (Bool-cases (key_ltb (change_key c) j)) [
        | inl f ↦ rw (e, f) (h, a)
        | inr f ↦ rw (e, f) (a.0, above_group_push k c g h a.1)
      ]
    ]

pub group_push-IsOrdered :
    (c : TableChange) (g : Grouped) → IsOrdered g → IsOrdered (group_push c g)
unfolding group_push
group_push-IsOrdered c [] h = (tt, tt)
group_push-IsOrdered c ((j, cs) ∷ g) h =
    elim (TableKey-discrete j (change_key c))
      as (λ d. IsOrdered (
        if is_yes d
        then (j, cs ++ c ∷ []) ∷ g
        else if key_ltb (change_key c) j
        then (change_key c, c ∷ []) ∷ (j, cs) ∷ g
        else (j, cs) ∷ group_push c g)) [
          | yes e ↦ h
          | no n ↦ elim (Bool-cases (key_ltb (change_key c) j)) [
            | inl f ↦ rw f ((f, All-map (λ e l. key_ltb_trans (change_key c) j e.0 f l) g h.0), h)
            | inr f ↦ rw f (
              above_group_push j c g (key_ltb_total j (change_key c) n f) h.0,
              group_push-IsOrdered c g h.1,
            )
          ]
        ]

changes_at-same :
    (k j : TableKey) (cs : List TableChange) (g : Grouped) → j ≡ k → changes_at k ((j, cs) ∷ g) ≡ cs
changes_at-same k j cs g e = rw (is_yes-of (TableKey-discrete j k) e) refl

changes_at-other :
    (k j : TableKey) (cs : List TableChange) (g : Grouped)
    → ¬ (j ≡ k)
    → changes_at k ((j, cs) ∷ g) ≡ changes_at k g
changes_at-other k j cs g n =
    elim (TableKey-discrete j k)
      as (λ d. (if is_yes d then cs else changes_at k g) ≡ changes_at k g) [
        | yes e ↦ absurd (n e)
        | no m ↦ refl
      ]

rows_of-same : (k : TableKey) (c : TableChange) → change_key c ≡ k → rows_of k (c ∷ []) ≡ c ∷ []
rows_of-same k c e = rw (is_yes-of (TableKey-discrete (change_key c) k) e) refl

rows_of-other : (k : TableKey) (c : TableChange) → ¬ (change_key c ≡ k) → rows_of k (c ∷ []) ≡ []
rows_of-other k c n =
    elim (TableKey-discrete (change_key c) k) as (λ d. (if is_yes d then c ∷ [] else []) ≡ []) [
      | yes e ↦ absurd (n e)
      | no m ↦ refl
    ]

-- Where a change goes, at an entry of the map.
group_push_cases :
    (c : TableChange) (j : TableKey) (cs : List TableChange) (g : Grouped)
    → ((j ≡ change_key c) × (group_push c ((j, cs) ∷ g) ≡ (j, cs ++ c ∷ []) ∷ g))
      ⊎ ((¬ (j ≡ change_key c))
          × (((key_ltb (change_key c) j ≡ true)
                × (group_push c ((j, cs) ∷ g) ≡ (change_key c, c ∷ []) ∷ (j, cs) ∷ g))
              ⊎ (group_push c ((j, cs) ∷ g) ≡ (j, cs) ∷ group_push c g)))
unfolding group_push
group_push_cases c j cs g = elim (TableKey-discrete j (change_key c)) [
  | yes e ↦ inl (e, rw (is_yes-of (TableKey-discrete j (change_key c)) e) refl)
  | no n ↦ elim (Bool-cases (key_ltb (change_key c) j)) [
    | inl f ↦ inr (n, inl (f, rw (is_yes-not (TableKey-discrete j (change_key c)) n, f) refl))
    | inr f ↦ inr (n, inr (rw (is_yes-not (TableKey-discrete j (change_key c)) n, f) refl))
  ]
]

-- A change joins the ones of its table, at their end.
pub changes_at-group_push :
    (k : TableKey) (c : TableChange) (g : Grouped)
    → IsOrdered g
    → changes_at k (group_push c g) ≡ changes_at k g ++ rows_of k (c ∷ [])
changes_at-group_push k c [] h = unfold group_push in refl
changes_at-group_push k c ((j, cs) ∷ g) h = elim (group_push_cases c j cs g) [
  | inl (e, p) ↦ elim (TableKey-discrete (change_key c) k) [
    | yes same ↦
        ap (changes_at k) p
        ∙ (changes_at-same k j (cs ++ c ∷ []) g (e ∙ same)
            ∙ sym
                (ap₂ (λ x y. x ++ y) (changes_at-same k j cs g (e ∙ same)) (rows_of-same k c same)))
    | no other ↦
        let apart : ¬ (j ≡ k) = λ f. other (sym e ∙ f) in
        ap (changes_at k) p
        ∙ (changes_at-other k j (cs ++ c ∷ []) g apart
            ∙ (sym (append-nil (changes_at k g))
                ∙ sym (
                    ap₂ (λ x y. x ++ y) (changes_at-other k j cs g apart)
                      (rows_of-other k c other))))
  ]
  | inr (n, inl (below, p)) ↦ elim (TableKey-discrete (change_key c) k) [
    | yes same ↦
        ap (changes_at k) p
        ∙ (changes_at-same k (change_key c) (c ∷ []) ((j, cs) ∷ g) same
            ∙ sym (
                ap₂ (λ x y. x ++ y) (changes_at-above k ((j, cs) ∷ g) (above k same below))
                  (rows_of-same k c same)))
    | no other ↦
        ap (changes_at k) p
        ∙ (changes_at-other k (change_key c) (c ∷ []) ((j, cs) ∷ g) other
            ∙ (sym (append-nil (changes_at k ((j, cs) ∷ g)))
                ∙ sym (ap (λ y. changes_at k ((j, cs) ∷ g) ++ y) (rows_of-other k c other))))
  ]
  | inr (n, inr p) ↦ elim (TableKey-discrete j k) [
    | yes same ↦
        let other : ¬ (change_key c ≡ k) = λ f. n (same ∙ sym f) in
        ap (changes_at k) p
        ∙ (changes_at-same k j cs (group_push c g) same
            ∙ (sym (append-nil cs)
                ∙ sym (
                    ap₂ (λ x y. x ++ y) (changes_at-same k j cs g same) (rows_of-other k c other))))
    | no apart ↦
        ap (changes_at k) p
        ∙ (changes_at-other k j cs (group_push c g) apart
            ∙ (changes_at-group_push k c g h.1
                ∙ sym (ap (λ x. x ++ rows_of k (c ∷ [])) (changes_at-other k j cs g apart))))
  ]
]
  where
    above :
        (l : TableKey)
        → change_key c ≡ l
        → key_ltb (change_key c) j ≡ true
        → All (λ e. key_ltb l e.0 ≡ true) ((j, cs) ∷ g)
    above l same below =
        subst (λ l. All (λ e. key_ltb l e.0 ≡ true) ((j, cs) ∷ g)) same
          (below, All-map (λ e x. key_ltb_trans (change_key c) j e.0 below x) g h.0)
