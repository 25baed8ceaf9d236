-- ===== src/Source/Wal/Assembler/Branches.antt =====
-- The branches of the assembler's operations, as equations, for proofs that keep the operations
-- shut.
use etl_server_cloudberry.Prelude.{
  ℕ, ℤ, ◌≤◌, ◌≡◌, ◌⊎◌, inl, inr, Option-cases, true, false, none, some, [], ok, err, arith,
  ℕ_discrete,
}
use etl_server_cloudberry.Prelude.Assoc.{insert}
use etl_server_cloudberry.Core.Change.{PgLsn, TransactionChange}
use etl_server_cloudberry.Source.Wal.{
  AssembledEvent, RelationEvent, PendingTransaction, TransactionAssembler, event_without_begin,
}
use etl_server_cloudberry.Source.Wal.Assembler.{
  is_current, repeats_ddl, stale_error, buffer, push_change, is_behind, push_begin, accept_relation,
  close, push_commit, relation_generation,
}

pub push_change_idle :
    (a : TransactionAssembler) (c : TransactionChange)
    → a.pending ≡ none
    → push_change a c ≡ (err event_without_begin, a)
unfolding push_change
push_change_idle a c e = ground arith

pub push_change_stale :
    (a : TransactionAssembler) (c : TransactionChange) (p : PendingTransaction)
    → a.pending ≡ some p
    → is_current a c ≡ false
    → push_change a c ≡ (err (stale_error c), a)
unfolding push_change
push_change_stale a c p e old = ground arith

pub push_change_twice :
    (a : TransactionAssembler) (c : TransactionChange) (p : PendingTransaction)
    → a.pending ≡ some p
    → is_current a c ≡ true
    → repeats_ddl p.changes c ≡ true
    → push_change a c ≡ (ok none, a)
unfolding push_change
push_change_twice a c p e new twice = ground arith

pub push_change-buffer :
    (a : TransactionAssembler) (c : TransactionChange) (p : PendingTransaction)
    → a.pending ≡ some p
    → is_current a c ≡ true
    → repeats_ddl p.changes c ≡ false
    → push_change a c ≡ buffer a p c
unfolding push_change
push_change-buffer a c p e new once = ground arith

pub push_begin_cases :
    (a : TransactionAssembler) (final_lsn : PgLsn) (timestamp : ℤ) (xid : ℕ)
    → ((push_begin a final_lsn timestamp xid).1 ≡ a)
      ⊎ ((is_behind final_lsn a.last_commit_lsn ≡ false)
          × ((push_begin a final_lsn timestamp xid).1 ≡ record a {
            pending = some (record {
              xid = xid;
              begin_lsn = final_lsn;
              begin_time = timestamp;
              changes = [];
              buffered_bytes = 0;
            });
          }))
unfolding push_begin
push_begin_cases a final_lsn timestamp xid = ground arith

pub accept_relation_cases :
    (a : TransactionAssembler) (r : RelationEvent)
    → ((accept_relation a r).1 ≡ a)
      ⊎ ((is_behind r.generation (relation_generation a r.relation_id) ≡ false)
          × ((accept_relation a r).1 ≡ record a {
            relation_generations =
                insert ℕ_discrete r.relation_id r.generation a.relation_generations;
          }))
unfolding accept_relation
accept_relation_cases a r = ground arith

pub push_commit_cases :
    (a : TransactionAssembler) (commit_lsn end_lsn : PgLsn) (timestamp flags : ℤ)
    → ((push_commit a commit_lsn end_lsn timestamp flags).1 ≡ a)
      ⊎ ((push_commit a commit_lsn end_lsn timestamp flags).1.pending ≡ none)
unfolding push_commit close
push_commit_cases a commit_lsn end_lsn timestamp flags = ground arith

pub push_commit-some :
    (a : TransactionAssembler) (commit_lsn end_lsn : PgLsn) (timestamp flags : ℤ)
    {e : AssembledEvent}
    → (push_commit a commit_lsn end_lsn timestamp flags).0 ≡ ok (some e)
    → (p : PendingTransaction) × (a.pending ≡ some p)
      × (push_commit a commit_lsn end_lsn timestamp flags ≡ close a p commit_lsn end_lsn timestamp)
      × (is_behind end_lsn a.last_commit_lsn ≡ false)
      × (commit_lsn ≤ end_lsn)
unfolding push_commit
push_commit-some a commit_lsn end_lsn timestamp flags h = elim (Option-cases a.pending) [
  | inl e ↦ absurd (ground arith)
  | inr (p, e) ↦ (p, e, ground arith, ground arith, ground arith)
]
