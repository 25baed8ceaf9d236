-- ===== src/Examples/Data.antt =====
-- Concrete transactions, batchers and turns for crates/engine.
use etl_server_cloudberry.Prelude.{
  ℕ, pos, false, none, some, List, [], ◌∷◌, text, refl, arith, saturating_add,
}
use etl_server_cloudberry.Core.Change.{
  TransactionChange, row, insert, text_cell, SourceTransaction, requires_generation_barrier,
}
use etl_server_cloudberry.Engine.Batch.{
  BatchLimits, Batcher, TransactionBatch, transaction_row_count, transaction_estimated_bytes,
}
use etl_server_cloudberry.Engine.Batch.Order.{IsRun-nil, IsRun-one}
use etl_server_cloudberry.Engine.Batch.Bounds.{IsValid, IsBatch}
use etl_server_cloudberry.Engine.Pipeline.{Turn, receive, timer, done, cancelled_in_acknowledge}

abbrev pub one_row : TransactionChange
one_row = row (record {
  relation_id = 16_384;
  generation = 1;
  change = insert (record { cells = text_cell (text "7") ∷ [] });
})

-- A transaction of node 1 with one row.
abbrev pub committed_at : ℕ → SourceTransaction
committed_at lsn = record {
  xid = 700;
  commit_time = pos 1_000;
  final_position = record { node_id = pos 1; system_identifier = 42; timeline = 1; lsn = lsn };
  changes = one_row ∷ [];
}

abbrev pub two_rows : BatchLimits
two_rows = record { max_rows = 2; max_bytes = 1_024; max_delay = 1_000 }

abbrev pub idle_batcher : Batcher
idle_batcher = record {
  limits = two_rows;
  pending = [];
  pending_rows = 0;
  pending_bytes = 0;
  node_identity = none;
}

pub idle_batcher-IsValid : IsValid idle_batcher
idle_batcher-IsValid = record { room = omega arith; run = IsRun-nil two_rows; node = refl }

-- The batcher with one pending transaction, at 200.
abbrev pub busy_batcher : Batcher
busy_batcher = record {
  limits = two_rows;
  pending = committed_at 200 ∷ [];
  pending_rows = saturating_add 0 (transaction_row_count (committed_at 200));
  pending_bytes = saturating_add 0 (transaction_estimated_bytes (committed_at 200));
  node_identity = some (pos 1, 42);
}

pub busy_batcher-IsValid : IsValid busy_batcher
busy_batcher-IsValid = record {
  room = omega arith;
  run = IsRun-one two_rows (committed_at 200) (omega arith);
  node = refl;
}

-- Its pending transaction as a batch.
abbrev pub one_transaction : TransactionBatch
one_transaction = record {
  transactions = committed_at 200 ∷ [];
  row_count = saturating_add 0 (transaction_row_count (committed_at 200));
  estimated_bytes = saturating_add 0 (transaction_estimated_bytes (committed_at 200));
  has_generation_barrier = false;
}

pub one_transaction-IsBatch : IsBatch two_rows one_transaction
unfolding requires_generation_barrier
one_transaction-IsBatch = record {
  nonempty = λ h. cc;
  run = IsRun-one two_rows (committed_at 200) (omega arith);
  barrier = refl;
}

-- Three transactions; the third fills the batch, and its acknowledgement is cut off.
abbrev pub cut_off : List Turn
cut_off =
    receive (committed_at 100) done
    ∷ receive (committed_at 200) done
    ∷ receive (committed_at 300) cancelled_in_acknowledge
    ∷ []

-- Two transactions, the timer, and one more.
abbrev pub timed : List Turn
timed =
    receive (committed_at 100) done
    ∷ receive (committed_at 200) done
    ∷ timer done
    ∷ receive (committed_at 300) done
    ∷ []
