-- ===== src/Source/Wal/Assembler/Bounds.antt =====
-- The invariant of the assembler of crates/source-postgres/src/wal.rs: the limits of what an open
-- transaction buffers, its position, its relation generations and its DDL messages.
use etl_server_cloudberry.Prelude.{
  ℕ, ℤ, ◌+◌, ◌≤◌, min, ◌≡◌, refl, sym, subst, inl, inr, true, false, Option, none, some, List, [],
  ◌∷◌, ◌++◌, length, length-append, All, All-map, All-append, u64_max, saturating_add, Bool-cases,
  Option-cases, ℕ_discrete, arith, leb, ltb, leb-eq_false, ltb-eq_false, tests,
}
use etl_server_cloudberry.Prelude.Assoc.{Assoc, get, insert, get-insert}
use etl_server_cloudberry.Core.Change.{PgLsn, TransactionChange, row, truncate, ddl}
use etl_server_cloudberry.Source.Wal.{
  DecodedMessage, begin, commit, relation, keepalive, RelationEvent, PendingTransaction,
  TransactionAssembler, to_transaction_change,
}
use etl_server_cloudberry.Source.Wal
use etl_server_cloudberry.Source.Wal.Assembler.{
  transaction_change_bytes, is_generation, is_current, repeats_ddl, buffer, push_change, is_behind,
  push_begin, accept_relation, push_commit, push_relation, push_event, push, relation_generation,
}
use etl_server_cloudberry.Source.Wal.Assembler.Branches.{
  push_change_idle, push_change_stale, push_change_twice, push_change-buffer, push_begin_cases,
  accept_relation_cases, push_commit_cases,
}

-- A buffered row names a relation that is known, at its generation or an older one.
abbrev pub IsKnown : Assoc ℕ ℕ → TransactionChange → Type 0
IsKnown gs (row c) = (g : ℕ) × (get ℕ_discrete c.relation_id gs ≡ some g) × (c.generation ≤ g)
IsKnown gs _ = Unit {0}

-- No two of the changes are the same DDL message.
abbrev pub IsDistinct : List TransactionChange → Type 0
IsDistinct [] = Unit {0}
IsDistinct (c ∷ cs) = All (λ d. repeats_ddl (c ∷ []) d ≡ false) cs × IsDistinct cs

abbrev pub total_bytes : List TransactionChange → ℕ
total_bytes [] = 0
total_bytes (c ∷ cs) = transaction_change_bytes c + total_bytes cs

pub record IsBuffered (a : TransactionAssembler) (p : PendingTransaction) : Type 0 where
  pub counted : length p.changes ≤ a.limits.max_changes
  pub fits : p.buffered_bytes ≤ a.limits.max_bytes
  pub measured : p.buffered_bytes ≡ min (total_bytes p.changes) u64_max
  pub follows : is_behind p.begin_lsn a.last_commit_lsn ≡ false
  pub known : All (IsKnown a.relation_generations) p.changes
  pub distinct : IsDistinct p.changes

abbrev pub AllBuffered : TransactionAssembler → Option PendingTransaction → Type 0
AllBuffered a none = Unit {0}
AllBuffered a (some p) = IsBuffered a p

-- The open transaction, if there is one, is buffered within the rules.
abbrev pub IsValid : TransactionAssembler → Type 0
IsValid a = AllBuffered a a.pending

IsDistinct-snoc :
    (cs : List TransactionChange) (d : TransactionChange)
    → IsDistinct cs
    → repeats_ddl cs d ≡ false
    → IsDistinct (cs ++ d ∷ [])
unfolding repeats_ddl
IsDistinct-snoc [] d h e = (tt, tt)
IsDistinct-snoc (c ∷ cs) (ddl m) h e = (
  All-append _ cs (ddl m ∷ []) h.0 (ground arith, tt),
  IsDistinct-snoc cs (ddl m) h.1 (ground arith),
)
IsDistinct-snoc (c ∷ cs) (row r) h e =
    (All-append _ cs (row r ∷ []) h.0 (refl, tt), IsDistinct-snoc cs (row r) h.1 refl)
IsDistinct-snoc (c ∷ cs) (truncate l x y) h e = (
  All-append _ cs (truncate l x y ∷ []) h.0 (refl, tt),
  IsDistinct-snoc cs (truncate l x y) h.1 refl,
)

total_bytes-snoc :
    (cs : List TransactionChange) (d : TransactionChange)
    → total_bytes (cs ++ d ∷ []) ≡ total_bytes cs + transaction_change_bytes d
total_bytes-snoc [] d = omega arith
total_bytes-snoc (c ∷ cs) d = omega (arith, total_bytes-snoc cs d)

saturating_total :
    (n : ℕ) (cs : List TransactionChange) (d : TransactionChange)
    → n ≡ min (total_bytes cs) u64_max
    → saturating_add n (transaction_change_bytes d) ≡ min (total_bytes (cs ++ d ∷ [])) u64_max
unfolding saturating_add
saturating_total n cs d h = omega (arith, total_bytes-snoc cs d)

IsKnown-of_current :
    (a : TransactionAssembler) (c : TransactionChange)
    → is_current a c ≡ true
    → IsKnown a.relation_generations c
unfolding is_current is_generation relation_generation
IsKnown-of_current a (row c) h =
    elim (Option-cases (get ℕ_discrete c.relation_id a.relation_generations)) [
      | inl e ↦ absurd (ground arith)
      | inr (g, e) ↦ (g, e, ground arith)
    ]
IsKnown-of_current a (truncate l x y) h = tt
IsKnown-of_current a (ddl m) h = tt

IsKnown-insert :
    (gs : Assoc ℕ ℕ) (r g : ℕ) (c : TransactionChange)
    → is_behind g (get ℕ_discrete r gs) ≡ false
    → IsKnown gs c
    → IsKnown (insert ℕ_discrete r g gs) c
unfolding is_behind
IsKnown-insert gs r g (row c) e (h, k, le) = elim (ℕ_discrete r c.relation_id) [
  | yes same ↦ (g, ground (arith, get-insert ℕ_discrete r c.relation_id g gs), ground arith)
  | no other ↦ (h, ground (arith, get-insert ℕ_discrete r c.relation_id g gs), le)
]
IsKnown-insert gs r g (truncate l x y) e h = tt
IsKnown-insert gs r g (ddl m) e h = tt

-- Buffering one more change keeps the rules, or is refused.
buffer-IsValid :
    (a : TransactionAssembler) (p : PendingTransaction) (c : TransactionChange)
    → a.pending ≡ some p
    → IsBuffered a p
    → IsKnown a.relation_generations c
    → repeats_ddl p.changes c ≡ false
    → IsValid (buffer a p c).1
unfolding buffer
buffer-IsValid a p c e v k d = elim (Bool-cases (leb a.limits.max_changes (length p.changes))) [
  | inl full ↦ rw (full, e) v
  | inr room ↦
      elim (Bool-cases
        (ltb a.limits.max_bytes (saturating_add p.buffered_bytes (transaction_change_bytes c)))) [
          | inl big ↦ rw (room, big, e) v
          | inr fits ↦
              rw (room, fits)
                (record {
                  counted = omega (
                    tests,
                    length-append p.changes (c ∷ []),
                    leb-eq_false a.limits.max_changes (length p.changes) room,
                  );
                  fits =
                      ltb-eq_false a.limits.max_bytes
                        (saturating_add p.buffered_bytes (transaction_change_bytes c)) fits;
                  measured = saturating_total p.buffered_bytes p.changes c v.measured;
                  follows = v.follows;
                  known = All-append _ p.changes (c ∷ []) v.known (k, tt);
                  distinct = IsDistinct-snoc p.changes c v.distinct d;
                })
        ]
]

push_change-IsValid :
    (a : TransactionAssembler) (c : TransactionChange) → IsValid a → IsValid (push_change a c).1
push_change-IsValid a c v = elim (Option-cases a.pending) [
  | inl e ↦ rw (push_change_idle a c e) v
  | inr (p, e) ↦
      let b : IsBuffered a p = subst (AllBuffered a) e v in
      elim (Bool-cases (is_current a c)) [
        | inr old ↦ rw (push_change_stale a c p e old) v
        | inl new ↦ elim (Bool-cases (repeats_ddl p.changes c)) [
          | inl twice ↦ rw (push_change_twice a c p e new twice) v
          | inr once ↦
              rw (push_change-buffer a c p e new once)
                (buffer-IsValid a p c e b (IsKnown-of_current a c new) once)
        ]
      ]
]

push_begin-IsValid :
    (a : TransactionAssembler) (final_lsn : PgLsn) (timestamp : ℤ) (xid : ℕ)
    → IsValid a
    → IsValid (push_begin a final_lsn timestamp xid).1
push_begin-IsValid a final_lsn timestamp xid v = elim (push_begin_cases a final_lsn timestamp xid) [
  | inl e ↦ rw e v
  | inr (after, e) ↦ rw e (record {
    counted = omega arith;
    fits = omega arith;
    measured = omega arith;
    follows = after;
    known = tt;
    distinct = tt;
  })
]

accept_relation-IsValid :
    (a : TransactionAssembler) (r : RelationEvent) → IsValid a → IsValid (accept_relation a r).1
unfolding relation_generation
accept_relation-IsValid a r v = elim (accept_relation_cases a r) [
  | inl e ↦ rw e v
  | inr (newer, e) ↦ rw e (elim (Option-cases a.pending) [
    | inl idle ↦ rw idle tt
    | inr (p, open_at) ↦
        let b : IsBuffered a p = subst (AllBuffered a) open_at v in
        rw open_at (record {
          counted = b.counted;
          fits = b.fits;
          measured = b.measured;
          follows = b.follows;
          known =
              All-map
                (λ c k. IsKnown-insert a.relation_generations r.relation_id r.generation c newer k)
                p.changes b.known;
          distinct = b.distinct;
        })
  ])
]

push_commit-IsValid :
    (a : TransactionAssembler) (commit_lsn end_lsn : PgLsn) (timestamp flags : ℤ)
    → IsValid a
    → IsValid (push_commit a commit_lsn end_lsn timestamp flags).1
push_commit-IsValid a commit_lsn end_lsn timestamp flags v =
    elim (push_commit_cases a commit_lsn end_lsn timestamp flags) [
      | inl e ↦ rw e v
      | inr e ↦ subst (AllBuffered _) (sym e) tt
    ]

-- Every event, refused or not, leaves an assembler whose open transaction is within the configured
-- limits, follows the last commit, uses known relation generations and repeats no DDL message.
pub push-IsValid :
    (a : TransactionAssembler) (event : DecodedMessage) → IsValid a → IsValid (push a event).1
unfolding push push_relation push_event
push-IsValid a (keepalive w t r) v = v
push-IsValid a (relation r) v = accept_relation-IsValid a r v
push-IsValid a (Wal.type t) v = v
push-IsValid a (begin f t x) v = push_begin-IsValid a f t x v
push-IsValid a (commit c e t f) v = push_commit-IsValid a c e t f v
push-IsValid a (Wal.insert_row r g new) v =
    unfold to_transaction_change in push_change-IsValid a _ v
push-IsValid a (Wal.update_row r g old new) v =
    unfold to_transaction_change in push_change-IsValid a _ v
push-IsValid a (Wal.delete_row r g old) v =
    unfold to_transaction_change in push_change-IsValid a _ v
push-IsValid a (Wal.truncate_tables l o) v =
    unfold to_transaction_change in push_change-IsValid a _ v
push-IsValid a (Wal.ddl_message m) v = unfold to_transaction_change in push_change-IsValid a _ v
