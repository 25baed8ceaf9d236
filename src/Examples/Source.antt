-- ===== src/Examples/Source.antt =====
-- Instances of the theorems on crates/source-postgres/src/wal.rs, alone and before the batcher.
use etl_server_cloudberry.Prelude.{
  ◌≡◌, refl, pos, true, none, some, [], ◌∷◌, ok, ℕ_discrete, ℤ_discrete, arith, saturating_add,
  wrapping_add, u64_max, u64_mod, text,
}
use etl_server_cloudberry.Prelude.Assoc.{get}
use etl_server_cloudberry.Core.Change.{Tuple, text_cell, TransactionChange}
use etl_server_cloudberry.Core.Lsn.{to_string, from_str, strip, digits, digit}
use etl_server_cloudberry.Core.Lsn.RoundTrip.{from_str-to_string}
use etl_server_cloudberry.Source.Wal.{
  DecodedMessage, begin, commit, insert_row, PendingTransaction, TransactionAssembler,
  CommittedTransaction, SourceNodeIdentity, transaction, position, to_transaction_change,
}
use etl_server_cloudberry.Source.Wal.Assembler.{
  push, push_commit, close, is_behind, push_event, push_change, buffer, is_current, is_generation,
  relation_generation, repeats_ddl, transaction_change_bytes, tuple_bytes,
}
use etl_server_cloudberry.Source.Wal.Assembler.Bounds.{IsValid, push-IsValid}
use etl_server_cloudberry.Source.Wal.Assembler.Emits.{IsClosed, push-IsClosed}
use etl_server_cloudberry.Source.Wal.Assembler.Content.{absorb, Grows, absorb-Grows}
use etl_server_cloudberry.Engine.Ingest.{emits, accepts, emits-accepts}
use etl_server_cloudberry.Examples.Data.{idle_batcher, idle_batcher-IsValid}

abbrev pub node_one : SourceNodeIdentity
node_one = record { node_id = pos 1; system_identifier = 42; timeline = 1 }

abbrev pub seven : Tuple
seven = record { cells = text_cell (55 ∷ []) ∷ [] }

-- Relation 5 is known at generation 1, and no transaction is open.
abbrev pub idle_assembler : TransactionAssembler
idle_assembler = record {
  identity = node_one;
  limits = record { max_changes = 10; max_bytes = 100 };
  pending = none;
  last_commit_lsn = none;
  relation_generations = (5, 1) ∷ [];
}

abbrev opened : PendingTransaction
opened = record {
  xid = 700;
  begin_lsn = 100;
  begin_time = pos 1_000;
  changes = [];
  buffered_bytes = 0;
}

abbrev open_assembler : TransactionAssembler
open_assembler = record idle_assembler { pending = some opened }

-- The same after a row of one byte.
abbrev grown : TransactionAssembler
grown = record idle_assembler {
  pending = some (record opened {
    changes =
        TransactionChange.row (record {
          relation_id = 5;
          generation = 1;
          change = etl_server_cloudberry.Core.Change.insert seven;
        })
        ∷ [];
    buffered_bytes = 1;
  });
}

abbrev end_at_300 : DecodedMessage
end_at_300 = commit 200 300 (pos 2_000) (pos 0)

abbrev emitted_at_300 : CommittedTransaction
emitted_at_300 = record {
  transaction = record {
    xid = 700;
    commit_time = pos 2_000;
    final_position = position node_one 300;
    changes = [];
  };
  commit_lsn = 200;
}

commit_emits : (push open_assembler end_at_300).0 ≡ ok (some (transaction emitted_at_300))
unfolding push push_commit ℤ_discrete ℕ_discrete is_behind close
commit_emits = refl

push-IsClosed_example :
    (p : PendingTransaction) × IsClosed open_assembler
      (push open_assembler end_at_300).1
      end_at_300
      emitted_at_300
      p
push-IsClosed_example = push-IsClosed open_assembler end_at_300 commit_emits

absorbed : absorb open_assembler (insert_row 5 1 seven ∷ []) ≡ some grown
unfolding absorb push push_event to_transaction_change push_change is_current is_generation
    relation_generation get ℕ_discrete repeats_ddl buffer saturating_add transaction_change_bytes
    tuple_bytes wrapping_add u64_mod u64_max
absorbed = refl

absorb-Grows_example : (p : PendingTransaction) × Grows grown opened (insert_row 5 1 seven ∷ []) p
absorb-Grows_example =
    absorb-Grows (insert_row 5 1 seven ∷ []) open_assembler opened (refl, tt) refl absorbed

open_assembler-IsValid : IsValid open_assembler
open_assembler-IsValid = record {
  counted = omega arith;
  fits = omega arith;
  measured = omega arith;
  follows = unfold is_behind in refl;
  known = tt;
  distinct = tt;
}

push-IsValid_example : IsValid (push open_assembler (insert_row 5 1 seven)).1
push-IsValid_example = push-IsValid open_assembler (insert_row 5 1 seven) open_assembler-IsValid

emits-accepts_example :
    accepts idle_batcher (
      emits idle_assembler (
        begin 100 (pos 1_000) 700
        ∷ insert_row 5 1 seven
        ∷ end_at_300
        ∷ begin 400 (pos 2_000) 701
        ∷ commit 400 410 (pos 2_000) (pos 0)
        ∷ []))
    ≡ true
emits-accepts_example =
    emits-accepts
      (begin 100 (pos 1_000) 700
        ∷ insert_row 5 1 seven
        ∷ end_at_300
        ∷ begin 400 (pos 2_000) 701
        ∷ commit 400 410 (pos 2_000) (pos 0)
        ∷ [])
      idle_assembler idle_batcher idle_batcher-IsValid refl

from_str-to_string_example :
    from_str (to_string 1_311_768_465_173_141_112) ≡ ok 1_311_768_465_173_141_112
from_str-to_string_example = from_str-to_string 1_311_768_465_173_141_112 (omega arith)

printed : to_string 1_311_768_465_173_141_112 ≡ text "12345678/12345678"
unfolding to_string strip digits digit text
printed = refl
