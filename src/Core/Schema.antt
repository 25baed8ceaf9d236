-- ===== src/Core/Schema.antt =====
-- crates/core/src/schema.rs: identifiers, column types and table schemas, and the source contract
-- that a table meets before it is replicated; crates/core/src/error.rs.
pub mod Contract
use etl_server_cloudberry.Prelude.{
  ℕ, ℤ, Bool, true, false, not, ◌&&◌, ◌||◌, Option, none, some, List, ◌++◌, Text, text,
  contains_nul, length, ltb, leb, if◌then◌else◌, is_yes, is_none, is_empty, any, all, keep, find,
  ℤ_discrete, Result, ok, err, ◌>>◌, sort_by,
}

-- crates/core/src/error.rs
pub data CoreError : Type 0 where
  invalid_lsn : Text → CoreError
  invalid_identifier : Text → CoreError
  invalid_prefix : Text → CoreError
  missing_primary_key : Text → CoreError
  unsupported_table : Text → Text → CoreError
  invalid_tuple_arity : ℕ → ℕ → ℕ → CoreError

abbrev pub CoreResult : Type 0 → Type 0
CoreResult A = Result CoreError A

abbrev pub postgres_identifier_max_bytes : ℕ
postgres_identifier_max_bytes = 63

pub record QualifiedName : Type 0 where
  pub schema : Text
  pub name : Text

-- `Display`.
unfoldable pub name_to_string : QualifiedName → Text
name_to_string q = q.schema ++ (text "." ++ q.name)

unfoldable pub validate_identifier : Text → CoreResult (Unit {0})
validate_identifier value =
    if is_empty value || (contains_nul value || ltb postgres_identifier_max_bytes (length value))
    then err (invalid_identifier value)
    else ok tt

-- `QualifiedName::new`, which deserialisation goes through as well.
unfoldable pub qualified_name : Text → Text → CoreResult QualifiedName
qualified_name schema name = do
  validate_identifier schema
  validate_identifier name
  ok (record { schema = schema; name = name })

-- The enumerations stand in one block, since a domain and an array hold a type.
mutual
  pub data PgType : Type 0 where
    pg_type : ℕ → QualifiedName → PgTypeKind → PgType

  pub data PgTypeKind : Type 0 where
    bool int2 int4 int8 float4 float8 text_type bytea date : PgTypeKind
    uuid json jsonb inet cidr mac_addr mac_addr8 xml : PgTypeKind
    numeric : Option ℕ → Option ℤ → PgTypeKind
    var_char : Option ℕ → PgTypeKind
    char : Option ℕ → PgTypeKind
    time : Option ℕ → Bool → PgTypeKind
    timestamp : Option ℕ → Bool → PgTypeKind
    interval : Option ℕ → PgTypeKind
    bit : Option ℕ → Bool → PgTypeKind
    enum : List Text → PgTypeKind
    domain : PgType → List Text → PgTypeKind
    array : PgType → PgTypeKind
    unsupported_kind : Text → PgTypeKind

unfoldable mutual
  pub type_is_supported : PgType → Bool
  type_is_supported (pg_type oid name kind) = is_supported kind

  pub is_supported : PgTypeKind → Bool
  is_supported (unsupported_kind reason) = false
  is_supported (array element) = type_is_supported element
  is_supported (domain base constraints) = type_is_supported base
  is_supported _ = true

pub data GeneratedColumn : Type 0 where
  not_generated stored virtual : GeneratedColumn

pub data IdentityColumn : Type 0 where
  no_identity always by_default : IdentityColumn

pub record ColumnSchema : Type 0 where
  pub attnum : ℤ
  pub name : Text
  pub data_type : PgType
  pub nullable : Bool
  pub primary_key_ordinal : Option ℕ
  pub generated : GeneratedColumn
  pub identity : IdentityColumn
  pub collation : Option QualifiedName

pub data TableKind : Type 0 where
  ordinary partitioned citus_distributed citus_reference citus_local : TableKind

pub data ReplicaIdentity : Type 0 where
  default index full nothing : ReplicaIdentity

pub record TableSchema : Type 0 where
  pub relation_id : ℕ
  pub generation : ℕ
  pub name : QualifiedName
  pub kind : TableKind
  pub replica_identity : ReplicaIdentity
  pub columns : List ColumnSchema
  pub distribution_key : List ℤ
  pub partition_key : List ℤ

-- `Option<u16>` is ordered with `None` first.
abbrev pub ordinal_leb : Option ℕ → Option ℕ → Bool
ordinal_leb none b = true
ordinal_leb (some a) none = false
ordinal_leb (some a) (some b) = leb a b

abbrev pub by_ordinal : ColumnSchema → ColumnSchema → Bool
by_ordinal a b = ordinal_leb a.primary_key_ordinal b.primary_key_ordinal

abbrev pub is_key_column : ColumnSchema → Bool
is_key_column c = not (is_none c.primary_key_ordinal)

unfoldable pub primary_key : TableSchema → List ColumnSchema
primary_key t = sort_by by_ordinal (keep is_key_column t.columns)

abbrev is_virtual : GeneratedColumn → Bool
is_virtual virtual = true
is_virtual _ = false

abbrev pub is_default : ReplicaIdentity → Bool
is_default default = true
is_default _ = false

abbrev pub is_citus_distributed : TableKind → Bool
is_citus_distributed citus_distributed = true
is_citus_distributed _ = false

-- The columns that `validate_supported` looks for.
abbrev pub is_rejected_column : ColumnSchema → Bool
is_rejected_column c = not (type_is_supported c.data_type) || is_virtual c.generated

-- `TableSchema::unsupported`.
abbrev pub unsupported : TableSchema → Text → CoreError
unsupported t reason = unsupported_table (name_to_string t.name) reason

unfoldable pub unsupported_column : ColumnSchema → Text
unsupported_column c =
    text "column " ++ (c.name ++ text " uses an unsupported type or virtual generation")

-- The check of a Citus table's distribution key.
unfoldable pub covers_distribution : TableSchema → Bool
covers_distribution t =
    all (λ attnum. any (λ c. is_yes (ℤ_discrete c.attnum attnum)) (primary_key t))
      t.distribution_key

unfoldable pub validate_supported : TableSchema → CoreResult (Unit {0})
validate_supported t =
    if is_empty (primary_key t)
    then err (missing_primary_key (name_to_string t.name))
    else if not (is_default t.replica_identity)
    then err (unsupported t (text "REPLICA IDENTITY must be DEFAULT"))
    else elim (find is_rejected_column t.columns) [
      | some c ↦ err (unsupported t (unsupported_column c))
      | none ↦
          if is_citus_distributed t.kind && not (covers_distribution t)
          then err (unsupported t (text "Citus primary key must contain the distribution key"))
          else ok tt
    ]
