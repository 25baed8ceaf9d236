-- ===== src/Source/Wal/Assembler.antt =====
-- crates/source-postgres/src/wal.rs, `TransactionAssembler`: its operations, on every branch.
pub mod Branches
pub mod Bounds
pub mod Emits
pub mod Added
pub mod Content
use etl_server_cloudberry.Prelude.{
  ℕ, ℤ, pos, Bool, true, false, ◌||◌, Option, none, some, List, [], ◌∷◌, ◌++◌, Text, length, any,
  leb, ltb, ltb_ℤ, ◌==◌, if◌then◌else◌, is_yes, ℤ_discrete, ℕ_discrete, Result, ok, err, ◌>>=◌,
  ◌>>◌, saturating_add, wrapping_add, wrapping_mul,
}
use etl_server_cloudberry.Prelude.Assoc.{Assoc, get, insert}
use etl_server_cloudberry.Core.Change.{
  PgLsn, Cell, null, unchanged_toast, text_cell, binary, Tuple, update, delete, TransactionChange,
  row, truncate, ddl, DdlMessage, DdlMessage-discrete,
}
use etl_server_cloudberry.Core.Change
use etl_server_cloudberry.Source.Wal.{
  SourceError, SourceResult, RelationEvent, DecodedMessage, begin, commit, relation, keepalive,
  to_transaction_change, SourceNodeIdentity, position, TransactionLimits, default_limits, validate,
  AssembledEvent, transaction, alive, PendingTransaction, TransactionAssembler, begin_before_commit,
  begin_behind_commit, event_without_begin, generation_not_current, too_many_changes,
  too_many_bytes, open_at_end, zero_generation, generation_backwards, unsupported_commit_flags,
  end_precedes_commit, commit_backwards, commit_without_begin, begins_after_commit,
  commit_before_begin_time,
}
use etl_server_cloudberry.Source.Wal

unfoldable pub new : SourceNodeIdentity → TransactionAssembler
new identity = record {
  identity = identity;
  limits = default_limits;
  pending = none;
  last_commit_lsn = none;
  relation_generations = [];
}

unfoldable pub with_limits :
    SourceNodeIdentity → TransactionLimits → SourceResult TransactionAssembler
with_limits identity limits = do
  validate limits
  ok (record {
    identity = identity;
    limits = limits;
    pending = none;
    last_commit_lsn = none;
    relation_generations = [];
  })

unfoldable pub relation_generation : TransactionAssembler → ℕ → Option ℕ
relation_generation a relation_id = get ℕ_discrete relation_id a.relation_generations

unfoldable pub tuple_bytes : List Cell → ℕ
tuple_bytes [] = 0
tuple_bytes (null ∷ cells) = wrapping_add 1 (tuple_bytes cells)
tuple_bytes (unchanged_toast ∷ cells) = wrapping_add 1 (tuple_bytes cells)
tuple_bytes (text_cell bytes ∷ cells) = wrapping_add (length bytes) (tuple_bytes cells)
tuple_bytes (binary bytes ∷ cells) = wrapping_add (length bytes) (tuple_bytes cells)

unfoldable pub old_key_bytes : Option Tuple → ℕ
old_key_bytes none = 0
old_key_bytes (some key) = tuple_bytes key.cells

unfoldable pub schema_bytes : List Text → ℕ
schema_bytes [] = 0
schema_bytes (s ∷ ss) = wrapping_add (length s) (schema_bytes ss)

unfoldable pub transaction_change_bytes : TransactionChange → ℕ
transaction_change_bytes (row change) = elim change.change [
  | Change.insert new ↦ tuple_bytes new.cells
  | update old_key new ↦ wrapping_add (old_key_bytes old_key) (tuple_bytes new.cells)
  | delete old_key ↦ tuple_bytes old_key.cells
]
transaction_change_bytes (truncate relation_ids cascade restart_identity) =
    wrapping_mul (length relation_ids) 4
transaction_change_bytes (ddl message) =
    wrapping_add
      (wrapping_add (wrapping_add (length message.command_tag) (length message.schema_fingerprint))
        (wrapping_mul (length message.relation_ids) 4))
      (schema_bytes message.affected_schemas)

-- What a method of the assembler returns, and the assembler that it leaves.
abbrev pub Outcome : Type 0
Outcome = SourceResult (Option AssembledEvent) × TransactionAssembler

unfoldable pub is_generation : Option ℕ → ℕ → Bool
is_generation none g = false
is_generation (some h) g = h == g

-- A row change must carry the current generation of its relation.
unfoldable pub is_current : TransactionAssembler → TransactionChange → Bool
is_current a (row change) =
    is_generation (relation_generation a change.relation_id) change.generation
is_current a _ = true

unfoldable pub stale_error : TransactionChange → SourceError
stale_error (row change) = generation_not_current change.relation_id change.generation
stale_error _ = event_without_begin

unfoldable pub is_same_ddl : DdlMessage → TransactionChange → Bool
is_same_ddl message (ddl previous) = is_yes (DdlMessage-discrete previous message)
is_same_ddl message _ = false

-- The same DDL message stands in the transaction already.
unfoldable pub repeats_ddl : List TransactionChange → TransactionChange → Bool
repeats_ddl changes (ddl message) = any (is_same_ddl message) changes
repeats_ddl changes _ = false

-- The last branch of `push`, with a transaction open.
unfoldable pub buffer : TransactionAssembler → PendingTransaction → TransactionChange → Outcome
buffer a p change =
    let bytes = saturating_add p.buffered_bytes (transaction_change_bytes change) in
    if leb a.limits.max_changes (length p.changes)
    then (err (too_many_changes p.xid a.limits.max_changes), a)
    else if ltb a.limits.max_bytes bytes
    then (err (too_many_bytes p.xid a.limits.max_bytes), a)
    else (
      ok none,
      record a {
        pending = some (record p { buffered_bytes = bytes; changes = p.changes ++ change ∷ [] });
      },
    )

unfoldable pub push_change : TransactionAssembler → TransactionChange → Outcome
push_change a change = elim a.pending [
  | none ↦ (err event_without_begin, a)
  | some p ↦
      if is_current a change
      then if repeats_ddl p.changes change then (ok none, a) else buffer a p change
      else (err (stale_error change), a)
]

unfoldable pub is_behind : PgLsn → Option PgLsn → Bool
is_behind lsn none = false
is_behind lsn (some previous) = ltb lsn previous

-- The position that a check of `is_behind` reports.
unfoldable pub previous_lsn : Option PgLsn → PgLsn
previous_lsn none = 0
previous_lsn (some previous) = previous

unfoldable pub push_begin : TransactionAssembler → PgLsn → ℤ → ℕ → Outcome
push_begin a final_lsn timestamp xid = elim a.pending [
  | some p ↦ (err begin_before_commit, a)
  | none ↦
      if is_behind final_lsn a.last_commit_lsn
      then (err (begin_behind_commit final_lsn (previous_lsn a.last_commit_lsn)), a)
      else (
        ok none,
        record a {
          pending = some (record {
            xid = xid;
            begin_lsn = final_lsn;
            begin_time = timestamp;
            changes = [];
            buffered_bytes = 0;
          });
        },
      )
]

unfoldable pub accept_relation :
    TransactionAssembler → RelationEvent → SourceResult (Unit {0}) × TransactionAssembler
accept_relation a r =
    if r.generation == 0
    then (err (zero_generation r.relation_id), a)
    else if is_behind r.generation (relation_generation a r.relation_id)
    then (
      err (
          generation_backwards r.relation_id (previous_lsn (relation_generation a r.relation_id))
            r.generation),
      a,
    )
    else (
      ok tt,
      record a {
        relation_generations = insert ℕ_discrete r.relation_id r.generation a.relation_generations;
      },
    )

-- The end of `commit`; the pending transaction is taken out of the assembler before its checks.
unfoldable pub close : TransactionAssembler → PendingTransaction → PgLsn → PgLsn → ℤ → Outcome
close a p commit_lsn end_lsn timestamp =
    let taken = record a { pending = none } in
    if ltb end_lsn p.begin_lsn
    then (err (begins_after_commit p.xid), taken)
    else if ltb_ℤ timestamp p.begin_time
    then (err (commit_before_begin_time p.xid), taken)
    else (
      ok (
          some (
            transaction (record {
              transaction = record {
                xid = p.xid;
                commit_time = timestamp;
                final_position = position a.identity end_lsn;
                changes = p.changes;
              };
              commit_lsn = commit_lsn;
            }))),
      record taken { last_commit_lsn = some end_lsn },
    )

unfoldable pub push_commit : TransactionAssembler → PgLsn → PgLsn → ℤ → ℤ → Outcome
push_commit a commit_lsn end_lsn timestamp flags =
    if is_yes (ℤ_discrete flags (pos 0))
    then if ltb end_lsn commit_lsn
      then (err (end_precedes_commit end_lsn commit_lsn), a)
      else if is_behind end_lsn a.last_commit_lsn
      then (err (commit_backwards end_lsn (previous_lsn a.last_commit_lsn)), a)
      else elim a.pending [
        | none ↦ (err commit_without_begin, a)
        | some p ↦ close a p commit_lsn end_lsn timestamp
      ]
    else (err (unsupported_commit_flags flags), a)

unfoldable pub push_relation : TransactionAssembler → RelationEvent → Outcome
push_relation a r = let (result, a') = accept_relation a r in (result >>= (λ _. ok none), a')

unfoldable pub push_event : TransactionAssembler → Option TransactionChange → Outcome
push_event a none = (ok none, a)
push_event a (some change) = push_change a change

unfoldable pub push : TransactionAssembler → DecodedMessage → Outcome
push a (keepalive wal_end timestamp_micros reply_requested) =
    (ok (some (alive wal_end timestamp_micros reply_requested)), a)
push a (relation r) = push_relation a r
push a (Wal.type t) = (ok none, a)
push a (begin final_lsn timestamp xid) = push_begin a final_lsn timestamp xid
push a (commit commit_lsn end_lsn timestamp flags) =
    push_commit a commit_lsn end_lsn timestamp flags
push a event = push_event a (to_transaction_change event)

unfoldable pub finish : TransactionAssembler → SourceResult (Unit {0})
finish a = elim a.pending [ none ↦ ok tt | some p ↦ err (open_at_end p.xid) ]
