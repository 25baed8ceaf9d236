-- ===== src/Core/Schema/Contract.antt =====
-- The source contract of a table, stated apart from crates/core/src/schema.rs.
use etl_server_cloudberry.Prelude.{
  ℤ, ◌≡◌, ◌≢◌, refl, ◌⊎◌, inl, inr, ◌↔◌, Bool, true, false, not, ◌&&◌, none, List, [], ◌∷◌,
  is_empty, any, all, find, All, is_yes, ℤ_discrete, Bool-cases, is_yes-of, ok, arith,
}
use etl_server_cloudberry.Core.Schema.{
  ColumnSchema, TableSchema, TableKind, citus_distributed, ordinary, partitioned, citus_reference,
  citus_local, default, virtual, type_is_supported, primary_key, is_default, is_citus_distributed,
  is_rejected_column, covers_distribution, validate_supported,
}

-- A column of the list has the attribute number.
abbrev pub HasColumn : ℤ → List ColumnSchema → Type 0
HasColumn attnum [] = ⊥
HasColumn attnum (c ∷ cs) = (c.attnum ≡ attnum) ⊎ HasColumn attnum cs

-- The primary key of a distributed table contains its distribution key.
abbrev pub IsCovered : TableKind → List ℤ → List ColumnSchema → Type 0
IsCovered citus_distributed attnums key = All (λ a. HasColumn a key) attnums
IsCovered _ attnums key = Unit {0}

pub record IsSupported (t : TableSchema) : Type 0 where
  pub keyed : primary_key t ≢ []
  pub identity : t.replica_identity ≡ default
  pub columns :
      All (λ c. (type_is_supported c.data_type ≡ true) × (c.generated ≢ virtual)) t.columns
  pub distribution : IsCovered t.kind t.distribution_key (primary_key t)

abbrev has : ℤ → List ColumnSchema → Bool
has a cs = any (λ c. is_yes (ℤ_discrete c.attnum a)) cs

has-HasColumn : (a : ℤ) (cs : List ColumnSchema) → has a cs ≡ true → HasColumn a cs
has-HasColumn a [] h = absurd (cc)
has-HasColumn a (c ∷ cs) h = elim (ℤ_discrete c.attnum a) [
  | yes e ↦ inl e
  | no e ↦ inr (has-HasColumn a cs (ground arith))
]

HasColumn-has : (a : ℤ) (cs : List ColumnSchema) → HasColumn a cs → has a cs ≡ true
HasColumn-has a [] h = absurd h
HasColumn-has a (c ∷ cs) (inl e) = rw (is_yes-of (ℤ_discrete c.attnum a) e) refl
HasColumn-has a (c ∷ cs) (inr h) = ground (arith, HasColumn-has a cs h)

covers-All :
    (nums : List ℤ) (cs : List ColumnSchema)
    → all (λ a. has a cs) nums ≡ true
    → All (λ a. HasColumn a cs) nums
covers-All [] cs h = tt
covers-All (a ∷ nums) cs h = (has-HasColumn a cs (ground arith), covers-All nums cs (ground arith))

All-covers :
    (nums : List ℤ) (cs : List ColumnSchema)
    → All (λ a. HasColumn a cs) nums
    → all (λ a. has a cs) nums ≡ true
All-covers [] cs h = refl
All-covers (a ∷ nums) cs h = rw (HasColumn-has a cs h.0) (All-covers nums cs h.1)

accepted_column :
    (c : ColumnSchema)
    → is_rejected_column c ≡ false
    → (type_is_supported c.data_type ≡ true) × (c.generated ≢ virtual)
accepted_column c h = (ground arith, λ e. absurd (ground arith))

column_accepted :
    (c : ColumnSchema)
    → (type_is_supported c.data_type ≡ true) × (c.generated ≢ virtual)
    → is_rejected_column c ≡ false
column_accepted c (h, k) = ground arith

find-All :
    (cs : List ColumnSchema)
    → find is_rejected_column cs ≡ none
    → All (λ c. (type_is_supported c.data_type ≡ true) × (c.generated ≢ virtual)) cs
find-All [] h = tt
find-All (c ∷ cs) h = elim (Bool-cases (is_rejected_column c)) [
  | inl e ↦ absurd (ground arith)
  | inr e ↦ (accepted_column c e, find-All cs (ground arith))
]

All-find :
    (cs : List ColumnSchema)
    → All (λ c. (type_is_supported c.data_type ≡ true) × (c.generated ≢ virtual)) cs
    → find is_rejected_column cs ≡ none
All-find [] h = refl
All-find (c ∷ cs) h = ground (arith, column_accepted c h.0, All-find cs h.1)

-- The tests of `validate_supported`, one by one.
validate_supported-tests :
    (t : TableSchema)
    → validate_supported t ≡ ok tt
    → (is_empty (primary_key t) ≡ false)
      × (is_default t.replica_identity ≡ true)
      × (find is_rejected_column t.columns ≡ none)
      × ((is_citus_distributed t.kind && not (covers_distribution t)) ≡ false)
unfolding validate_supported
validate_supported-tests t h = ground arith

tests-validate_supported :
    (t : TableSchema)
    → is_empty (primary_key t) ≡ false
    → is_default t.replica_identity ≡ true
    → find is_rejected_column t.columns ≡ none
    → (is_citus_distributed t.kind && not (covers_distribution t)) ≡ false
    → validate_supported t ≡ ok tt
unfolding validate_supported
tests-validate_supported t a b c d = ground arith

test-IsCovered :
    (kind : TableKind) (nums : List ℤ) (key : List ColumnSchema)
    → (is_citus_distributed kind && not (all (λ a. has a key) nums)) ≡ false
    → IsCovered kind nums key
test-IsCovered citus_distributed nums key h = covers-All nums key (ground arith)
test-IsCovered ordinary nums key h = tt
test-IsCovered partitioned nums key h = tt
test-IsCovered citus_reference nums key h = tt
test-IsCovered citus_local nums key h = tt

IsCovered-test :
    (kind : TableKind) (nums : List ℤ) (key : List ColumnSchema)
    → IsCovered kind nums key
    → (is_citus_distributed kind && not (all (λ a. has a key) nums)) ≡ false
IsCovered-test citus_distributed nums key h = ground (arith, All-covers nums key h)
IsCovered-test ordinary nums key h = refl
IsCovered-test partitioned nums key h = refl
IsCovered-test citus_reference nums key h = refl
IsCovered-test citus_local nums key h = refl

keyed_test : (cs : List ColumnSchema) → cs ≢ [] → is_empty cs ≡ false
keyed_test [] h = absurd (h refl)
keyed_test (c ∷ cs) h = refl

-- A table is accepted exactly when it has a primary key, the default replica identity, columns of
-- supported types none of which is virtual, and, if it is distributed, a primary key that contains
-- every column of its distribution key.
pub validate_supported_iff : (t : TableSchema) → (validate_supported t ≡ ok tt) ↔ IsSupported t
validate_supported_iff t = (
  λ h.
      let (keyed, same, found, covered) = validate_supported-tests t h in
      record {
        keyed = λ e. absurd (ground arith);
        identity = ground arith;
        columns = find-All t.columns found;
        distribution =
            test-IsCovered t.kind t.distribution_key (primary_key t)
              (unfold covers_distribution in covered);
      },
  λ v.
      tests-validate_supported t (keyed_test (primary_key t) v.keyed) (rw v.identity refl)
        (All-find t.columns v.columns)
        (unfold covers_distribution in
          IsCovered-test t.kind t.distribution_key (primary_key t) v.distribution),
)
