-- ===== src/Engine/Cloudberry/Quiet.antt =====
-- The barriers of crates/engine/src/adapters/cloudberry.rs: the changes that pass them.
use etl_server_cloudberry.Prelude.{
  ◌≢◌, ◌⊎◌, any, Option, none, Bytes-discrete, ◌≡◌, sym, true, false, some, List, [], ◌∷◌, All,
  Bool-cases, inl, inr, then_ok, ok, arith, Text,
}
use mathlib.Core.List.{Memᴰ}
use etl_server_cloudberry.Core.Change.{
  DdlMessage, TransactionChange, row, truncate, ddl, SourceTransaction,
}
use etl_server_cloudberry.Engine.Cloudberry.{
  contains, is_in_scope, DdlScope, requires_barrier, reject_change, reject_changes,
  reject_schema_barriers,
}

abbrev pub IsLeftOut : Option (List Text) → Text → Type 0
IsLeftOut none schema = ⊥
IsLeftOut (some included) schema = ¬ Memᴰ schema included

-- A schema that is excluded, or that is not among those that are included, if such are named.
abbrev pub IsOutside : DdlScope → Text → Type 0
IsOutside scope schema = Memᴰ schema scope.exclude_schemas ⊎ IsLeftOut scope.include_schemas schema

-- A row change, or a DDL message that names the schemas it affects, all of them outside.
abbrev pub IsQuiet : DdlScope → TransactionChange → Type 0
IsQuiet scope (row change) = Unit {0}
IsQuiet scope (truncate relation_ids cascade restart_identity) = ⊥
IsQuiet scope (ddl message) =
    (message.affected_schemas ≢ []) × All (IsOutside scope) message.affected_schemas

abbrev pub IsQuietTransaction : DdlScope → SourceTransaction → Type 0
IsQuietTransaction scope t = All (IsQuiet scope) t.changes

contains-Mem :
    (schemas : List Text) (schema : Text) → contains schemas schema ≡ true → Memᴰ schema schemas
unfolding contains
contains-Mem [] schema h = absurd (cc)
contains-Mem (s ∷ ss) schema h = elim (Bytes-discrete s schema) [
  | yes e ↦ Memᴰ.head (sym e)
  | no k ↦ Memᴰ.tail (contains-Mem ss schema (ground arith))
]

Mem-contains :
    (schemas : List Text) (schema : Text) → Memᴰ schema schemas → contains schemas schema ≡ true
unfolding contains
Mem-contains [] schema h = elim h [ ]
Mem-contains (s ∷ ss) schema (Memᴰ.head e) = ground arith
Mem-contains (s ∷ ss) schema (Memᴰ.tail h) = ground (arith, Mem-contains ss schema h)

module _ (scope : DdlScope) where
  is_in_scope-IsOutside :
      (included : Option (List Text)) (excluded : List Text) (schema : Text)
      → is_in_scope (record { include_schemas = included; exclude_schemas = excluded }) schema
        ≡ false
      → IsOutside (record { include_schemas = included; exclude_schemas = excluded }) schema
  unfolding is_in_scope
  is_in_scope-IsOutside none excluded schema h = inl (contains-Mem excluded schema (ground arith))
  is_in_scope-IsOutside (some included) excluded schema h =
      elim (Bool-cases (contains excluded schema)) [
        | inl e ↦ inl (contains-Mem excluded schema e)
        | inr e ↦ inr (λ m. ground (arith, Mem-contains included schema m))
      ]

  all-IsOutside :
      (schemas : List Text)
      → any (is_in_scope scope) schemas ≡ false
      → All (IsOutside scope) schemas
  all-IsOutside [] h = tt
  all-IsOutside (s ∷ ss) h = (
    is_in_scope-IsOutside scope.include_schemas scope.exclude_schemas s (ground arith),
    all-IsOutside ss (ground arith),
  )

  requires_barrier-IsQuiet :
      (message : DdlMessage) → requires_barrier scope message ≡ false → IsQuiet scope (ddl message)
  unfolding requires_barrier
  requires_barrier-IsQuiet message h =
      (λ e. ground arith, all-IsOutside message.affected_schemas (ground arith))

  reject_change-IsQuiet :
      (xid : _) (c : TransactionChange) → reject_change scope xid c ≡ ok tt → IsQuiet scope c
  unfolding reject_change
  reject_change-IsQuiet xid (row change) h = tt
  reject_change-IsQuiet xid (truncate relation_ids cascade restart_identity) h = absurd (cc)
  reject_change-IsQuiet xid (ddl message) h = elim (Bool-cases (requires_barrier scope message)) [
    | inl e ↦ absurd (ground arith)
    | inr e ↦ requires_barrier-IsQuiet message e
  ]

  reject_changes-IsQuiet :
      (xid : _) (cs : List TransactionChange)
      → reject_changes scope xid cs ≡ ok tt
      → All (IsQuiet scope) cs
  unfolding reject_changes
  reject_changes-IsQuiet xid [] h = tt
  reject_changes-IsQuiet xid (c ∷ cs) h =
      let (a, b) = then_ok (reject_change scope xid c) h in
      (reject_change-IsQuiet xid c a, reject_changes-IsQuiet xid cs b)

  pub reject_schema_barriers-IsQuiet :
      (ts : List SourceTransaction)
      → reject_schema_barriers scope ts ≡ ok tt
      → All (IsQuietTransaction scope) ts
  unfolding reject_schema_barriers
  reject_schema_barriers-IsQuiet [] h = tt
  reject_schema_barriers-IsQuiet (t ∷ ts) h =
      let (a, b) = then_ok (reject_changes scope t.xid t.changes) h in
      (reject_changes-IsQuiet t.xid t.changes a, reject_schema_barriers-IsQuiet ts b)
