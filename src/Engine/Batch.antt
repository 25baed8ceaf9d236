-- ===== src/Engine/Batch.antt =====
-- crates/engine/src/batch.rs: bounded, node-ordered batching of source transactions. A method that
-- changes the batcher returns its result and the batcher that it leaves.
pub mod Order
pub mod Bounds
pub mod Contract
use etl_server_cloudberry.Prelude.{
  ℕ, ℤ, Bool, true, false, not, ◌&&◌, ◌||◌, Option, none, some, List, [], ◌∷◌, ◌++◌, Bytes, length,
  last?, is_empty, any, keep, ltb, leb, ◌==◌, if◌then◌else◌, is_yes, ℤ_discrete, Result, ok, err,
  saturating_add, wrapping_add, wrapping_mul,
}
use etl_server_cloudberry.Core.Change.{
  Cell, null, unchanged_toast, text_cell, binary, Tuple, insert, update, delete, TransactionChange,
  row, truncate, ddl, SourceTransaction, requires_generation_barrier,
}

-- `max_delay` is in nanoseconds.
pub record BatchLimits : Type 0 where
  pub max_rows : ℕ
  pub max_bytes : ℕ
  pub max_delay : ℕ

abbrev pub default_limits : BatchLimits
default_limits = record { max_rows = 10_000; max_bytes = 16_777_216; max_delay = 250_000_000 }

pub data BatchError : Type 0 where
  invalid_limits : BatchError
  mixed_nodes : ℤ → ℤ → BatchError
  mixed_systems : BatchError
  non_monotonic_lsn : ℕ → ℕ → BatchError

pub record TransactionBatch : Type 0 where
  pub transactions : List SourceTransaction
  pub row_count : ℕ
  pub estimated_bytes : ℕ
  pub has_generation_barrier : Bool

pub record Batcher : Type 0 where
  pub limits : BatchLimits
  pub pending : List SourceTransaction
  pub pending_rows : ℕ
  pub pending_bytes : ℕ
  pub node_identity : Option (ℤ × ℕ)

unfoldable pub new : BatchLimits → Result BatchError Batcher
new limits =
    if limits.max_rows == 0 || (limits.max_bytes == 0 || limits.max_delay == 0)
    then err invalid_limits
    else ok (record {
      limits = limits;
      pending = [];
      pending_rows = 0;
      pending_bytes = 0;
      node_identity = none;
    })

is_row : TransactionChange → Bool
is_row (row change) = true
is_row _ = false

unfoldable pub transaction_row_count : SourceTransaction → ℕ
unfolding is_row
transaction_row_count t = length (keep is_row t.changes)

unfoldable pub tuple_bytes : List Cell → ℕ
tuple_bytes [] = 0
tuple_bytes (null ∷ cells) = wrapping_add 1 (tuple_bytes cells)
tuple_bytes (unchanged_toast ∷ cells) = wrapping_add 1 (tuple_bytes cells)
tuple_bytes (text_cell value ∷ cells) = wrapping_add (length value) (tuple_bytes cells)
tuple_bytes (binary value ∷ cells) = wrapping_add (length value) (tuple_bytes cells)

old_key_bytes : Option Tuple → ℕ
unfolding tuple_bytes
old_key_bytes none = 0
old_key_bytes (some key) = tuple_bytes key.cells

change_bytes : TransactionChange → ℕ
unfolding tuple_bytes old_key_bytes
change_bytes (row change) = elim change.change [
  | insert new ↦ tuple_bytes new.cells
  | update old_key new ↦ wrapping_add (old_key_bytes old_key) (tuple_bytes new.cells)
  | delete old_key ↦ tuple_bytes old_key.cells
]
change_bytes (truncate relation_ids cascade restart_identity) = wrapping_mul (length relation_ids) 4
change_bytes (ddl message) =
    wrapping_add (wrapping_add (length message.command_tag) (length message.schema_fingerprint))
      (wrapping_mul (length message.relation_ids) 4)

sum_bytes : List TransactionChange → ℕ
unfolding change_bytes
sum_bytes [] = 0
sum_bytes (c ∷ cs) = wrapping_add (change_bytes c) (sum_bytes cs)

unfoldable pub transaction_estimated_bytes : SourceTransaction → ℕ
unfolding sum_bytes
transaction_estimated_bytes t = sum_bytes t.changes

abbrev pub has_barrier : SourceTransaction → Bool
has_barrier t = any requires_generation_barrier t.changes

-- The two checks of `validate_order`; `none` accepts the transaction.
unfoldable pub check_identity : Option (ℤ × ℕ) → SourceTransaction → Option BatchError
check_identity none t = none
check_identity (some (node_id, system_identifier)) t =
    if not (is_yes (ℤ_discrete node_id t.final_position.node_id))
    then some (mixed_nodes node_id t.final_position.node_id)
    else if not (system_identifier == t.final_position.system_identifier)
    then some mixed_systems
    else none

unfoldable pub check_lsn : Option SourceTransaction → SourceTransaction → Option BatchError
check_lsn none t = none
check_lsn (some previous) t =
    if ltb t.final_position.lsn previous.final_position.lsn
    then some (non_monotonic_lsn previous.final_position.lsn t.final_position.lsn)
    else none

unfoldable pub validate_order : Batcher → SourceTransaction → Option BatchError
validate_order b t = elim (check_identity b.node_identity t) [
  | some e ↦ some e
  | none ↦ check_lsn (last? b.pending) t
]

unfoldable pub take_pending : Batcher → TransactionBatch × Batcher
take_pending b = (
  record {
    transactions = b.pending;
    row_count = b.pending_rows;
    estimated_bytes = b.pending_bytes;
    has_generation_barrier = any has_barrier b.pending;
  },
  record b { pending = []; pending_rows = 0; pending_bytes = 0; node_identity = none },
)

unfoldable pub must_flush : Batcher → SourceTransaction → Bool
must_flush b t =
    not (is_empty b.pending)
    && (has_barrier t
        || (ltb b.limits.max_rows (saturating_add b.pending_rows (transaction_row_count t))
            || (ltb b.limits.max_bytes
                  (saturating_add b.pending_bytes (transaction_estimated_bytes t))
                || leb b.limits.max_rows (length b.pending))))

-- The end of `push`: the transaction joins the pending ones.
unfoldable pub append : SourceTransaction → Batcher → Batcher
append t b = record b {
  node_identity = some (t.final_position.node_id, t.final_position.system_identifier);
  pending_rows = saturating_add b.pending_rows (transaction_row_count t);
  pending_bytes = saturating_add b.pending_bytes (transaction_estimated_bytes t);
  pending = b.pending ++ (t ∷ []);
}

unfoldable pub accept :
    Batcher → SourceTransaction → Result BatchError (Option TransactionBatch) × Batcher
accept b t =
    let (full, rest) = take_pending b in
    if must_flush b t then (ok (some full), append t rest) else (ok none, append t b)

unfoldable pub push :
    Batcher → SourceTransaction → Result BatchError (Option TransactionBatch) × Batcher
push b t = elim (validate_order b t) [ some e ↦ (err e, b) | none ↦ accept b t ]

unfoldable pub flush : Batcher → Option TransactionBatch × Batcher
flush b =
    let (full, rest) = take_pending b in if is_empty b.pending then (none, b) else (some full, rest)

-- `final_transaction`; `none` is the panic of its `expect`.
unfoldable pub final_transaction : TransactionBatch → Option SourceTransaction
final_transaction batch = last? batch.transactions
