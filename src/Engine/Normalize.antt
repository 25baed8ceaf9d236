-- ===== src/Engine/Normalize.antt =====
-- crates/engine/src/normalize.rs: folds the row events of one table into one staging row per
-- lineage. The normaliser is dropped at the first error, so a step returns the next state or the
-- failure; `panic` stands for an index out of range or a failed `expect`.
pub mod Key
pub mod Lineages
pub mod Finish
pub mod Inverse
pub mod Indexed
pub mod Steps
pub mod Runs
use etl_server_cloudberry.Prelude.{
  ℕ, Bool, true, false, Option, none, some, List, Bytes, Text, Result, ok, err, ℕ_discrete,
}
use etl_server_cloudberry.Prelude.Assoc.{Assoc}
use etl_server_cloudberry.Core.Schema.{CoreError, TableSchema}
use etl_server_cloudberry.Core.Change.{Cell, null, unchanged_toast, text_cell, binary}

pub data NormalizeError : Type 0 where
  schema : CoreError → NormalizeError
  relation_mismatch : ℕ → ℕ → NormalizeError
  generation_mismatch : ℕ → ℕ → ℕ → NormalizeError
  invalid_tuple_arity : Text → ℕ → ℕ → NormalizeError
  invalid_old_key_arity : ℕ → ℕ → ℕ → NormalizeError
  invalid_primary_key : Text → Text → Text → NormalizeError
  binary_value : Text → NormalizeError
  incomplete_insert : Text → NormalizeError
  ambiguous_sequence : Text → NormalizeError

pub data Failure : Type 0 where
  error : NormalizeError → Failure
  panic : Failure

abbrev pub Normalized : Type 0 → Type 0
Normalized A = Result Failure A

-- A `KeyCell` wraps the bytes of a text value.
abbrev pub Key : Type 0
Key = List Bytes

pub Key-discrete : Discrete Key
Key-discrete = hlevel ℕ_discrete

pub record PrimaryKeyLayout : Type 0 where
  pub ordinal_indexes : List ℕ
  pub key_tuple_positions : List ℕ

pub record Lineage : Type 0 where
  pub origin_key : Option Key
  pub current_key : Option Key
  pub cells : List Cell
  pub first_sequence : ℕ

pub record Normalizer : Type 0 where
  pub schema : TableSchema
  pub primary_key : PrimaryKeyLayout
  pub lineages : List Lineage
  pub current_by_key : Assoc Key ℕ
  pub origin_by_key : Assoc Key ℕ
  pub sequence : ℕ

-- crates/target-cloudberry/src/apply.rs, `StageOperation` and `StagingRow`.
pub data StageOperation : Type 0 where
  upsert delete move : StageOperation

pub record StagingRow : Type 0 where
  pub operation : StageOperation
  pub cells : List Cell
  pub old_key : Option (List Cell)

abbrev pub is_toast : Cell → Bool
is_toast unchanged_toast = true
is_toast _ = false

abbrev pub is_binary : Cell → Bool
is_binary (binary value) = true
is_binary _ = false
