-- ===== src/Source/Wal/Decoder/Links.antt =====
-- crates/source-postgres/src/wal.rs: the decoder in front of the assembler, and what keeps
-- them in agreement.
use etl_server_cloudberry.Prelude.{
  ℕ, ℤ, pos, ◌<◌, sym, ap, subst, if_both, length, saturating_add, ltb_ℤ, ℤ_discrete, ◌≡◌, refl,
  inl, inr, Bool, true, false, Option, none, some, is_yes, is_none, not, Option-cases, Bool-cases,
  ltb, leb, ℕ_discrete, ok, err, arith,
}
use etl_server_cloudberry.Core.Change.{PgLsn, TransactionChange, row}
use etl_server_cloudberry.Source.Wal.{
  SourceError, RelationEvent, DecodedMessage, PendingTransaction, TransactionAssembler,
  begin_behind_commit, too_many_changes, too_many_bytes, unsupported_commit_flags,
  end_precedes_commit, commit_backwards, begins_after_commit, commit_before_begin_time,
}
use etl_server_cloudberry.Source.Wal.Assembler.{
  Outcome, transaction_change_bytes, is_behind, push_begin, close, push_commit, accept_relation,
  push_relation, push, relation_generation, is_generation, is_current, repeats_ddl, buffer,
  push_change,
}
use etl_server_cloudberry.Source.Wal.Assembler.Branches.{push_change_twice, push_change-buffer}
use etl_server_cloudberry.Prelude.Assoc.{insert, get-insert}
use etl_server_cloudberry.Source.Wal.Decoder.Changes.{IsReady, IsChange}
use etl_server_cloudberry.Source.Wal.Decoder.Generations.{next_generation-Newer}
use etl_server_cloudberry.Source.Wal.Decoder.{
  TransactionDecoder, relation_of, next_generation, store_relation,
}

-- The errors that do not come from the order of the messages or from the generations.
abbrev pub is_stream_fault : SourceError → Bool
is_stream_fault (too_many_changes xid limit) = true
is_stream_fault (too_many_bytes xid limit) = true
is_stream_fault (begin_behind_commit lsn previous) = true
is_stream_fault (unsupported_commit_flags flags) = true
is_stream_fault (end_precedes_commit end_lsn commit_lsn) = true
is_stream_fault (commit_backwards lsn previous) = true
is_stream_fault (begins_after_commit xid) = true
is_stream_fault (commit_before_begin_time xid) = true
is_stream_fault _ = false

abbrev pub generation? : Option RelationEvent → Option ℕ
generation? none = none
generation? (some r) = some r.generation

-- The decoder and the assembler agree on the open transaction and on the relations' generations.
pub record IsLinked (d : TransactionDecoder) (a : TransactionAssembler) : Type 0 where
  pub generations : (k : ℕ) → relation_generation a k ≡ generation? (relation_of d k)
  pub positive : (k : ℕ) (r : RelationEvent) → relation_of d k ≡ some r → 0 < r.generation
  pub is_open : not (is_none a.pending) ≡ d.in_transaction

abbrev pub Linked : TransactionDecoder → Outcome → Type 0
Linked d (ok e, a) = IsLinked d a
Linked d (err f, a) = is_stream_fault f ≡ true

module _ {d : TransactionDecoder} {a : TransactionAssembler} (linked : IsLinked d a) where
  is_current-of : (c : TransactionChange) → IsReady d c → is_current a c ≡ true
  unfolding is_current is_generation
  is_current-of (row c) (r, e, f, i) = ground (arith, linked.generations c.relation_id)
  is_current-of c h = refl

  buffer-Linked :
      (p : PendingTransaction) (c : TransactionChange)
      → d.in_transaction ≡ true
      → Linked d (buffer a p c)
  unfolding buffer relation_generation
  buffer-Linked p c h = if_both (Linked d) (leb a.limits.max_changes (length p.changes)) refl (
      if_both (Linked d)
        (ltb a.limits.max_bytes (saturating_add p.buffered_bytes (transaction_change_bytes c))) refl
        (record { generations = linked.generations; positive = linked.positive; is_open = sym h }))

  push_change-Linked :
      (c : TransactionChange) → d.in_transaction ≡ true → IsReady d c → Linked d (push_change a c)
  push_change-Linked c t ready = elim (Option-cases a.pending) [
    | inl e ↦ absurd (let o = linked.is_open in ground arith)
    | inr (p, e) ↦ elim (Bool-cases (repeats_ddl p.changes c)) [
      | inl f ↦ rw (push_change_twice a c p e (is_current-of c ready) f) linked
      | inr f ↦ rw (push_change-buffer a c p e (is_current-of c ready) f) (buffer-Linked p c t)
    ]
  ]

  pub push_begin-Linked :
      (final_lsn : PgLsn) (timestamp : ℤ) (xid : ℕ)
      → d.in_transaction ≡ false
      → Linked (record d { in_transaction = true }) (push_begin a final_lsn timestamp xid)
  unfolding push_begin relation_generation relation_of
  push_begin-Linked final_lsn timestamp xid h = elim (Option-cases a.pending) [
    | inr (p, e) ↦ absurd (let o = linked.is_open in ground arith)
    | inl e ↦ rw e (
        if_both (Linked (record d { in_transaction = true }))
          (is_behind final_lsn a.last_commit_lsn) refl
          (record { generations = linked.generations; positive = linked.positive; is_open = refl }))
  ]

  close-Linked :
      (p : PendingTransaction) (commit_lsn end_lsn : PgLsn) (timestamp : ℤ)
      → Linked (record d { in_transaction = false }) (close a p commit_lsn end_lsn timestamp)
  unfolding close relation_generation relation_of
  close-Linked p commit_lsn end_lsn timestamp =
      if_both (Linked (record d { in_transaction = false })) (ltb end_lsn p.begin_lsn) refl (
        if_both (Linked (record d { in_transaction = false })) (ltb_ℤ timestamp p.begin_time) refl
          (record { generations = linked.generations; positive = linked.positive; is_open = refl }))

  pub push_commit-Linked :
      (commit_lsn end_lsn : PgLsn) (timestamp flags : ℤ)
      → d.in_transaction ≡ true
      → Linked
          (record d { in_transaction = false })
          (push_commit a commit_lsn end_lsn timestamp flags)
  unfolding push_commit
  push_commit-Linked commit_lsn end_lsn timestamp flags h =
      let P = Linked (record d { in_transaction = false }) in
      elim (Option-cases a.pending) [
        | inl e ↦ absurd (let o = linked.is_open in ground arith)
        | inr (p, e) ↦ rw e (
            if_both P (is_yes (ℤ_discrete flags (pos 0)))
              (if_both P (ltb end_lsn commit_lsn) refl (
                if_both P (is_behind end_lsn a.last_commit_lsn) refl
                  (close-Linked p commit_lsn end_lsn timestamp)))
              refl)
      ]

  -- A generation that the decoder stores is positive, and not behind the assembler's.
  generation-lem :
      (event : RelationEvent) (g : ℕ)
      → next_generation (relation_of d event.relation_id) event ≡ ok g
      → event.generation ≡ 1
      → (0 < g) × (is_behind g (relation_generation a event.relation_id) ≡ false)
  unfolding is_behind next_generation
  generation-lem event g h one = elim (Option-cases (relation_of d event.relation_id)) [
    | inl e ↦ (ground arith, ground (arith, linked.generations event.relation_id))
    | inr (r, e) ↦
        let p = linked.positive event.relation_id r e in
        let n = next_generation-Newer r event g (subst (λ o. next_generation o event ≡ ok g) e h) in
        elim n [
          | inl l ↦ (omega arith, ground (arith, linked.generations event.relation_id))
          | inr s ↦
              let same : g ≡ r.generation = ap (λ x. x.generation) s in
              (omega arith, ground (arith, linked.generations event.relation_id))
        ]
  ]

  push_relation-accepts :
      (r : RelationEvent)
      → 0 < r.generation
      → is_behind r.generation (relation_generation a r.relation_id) ≡ false
      → push_relation a r ≡ (
        ok none,
        record a {
          relation_generations =
              insert ℕ_discrete r.relation_id r.generation a.relation_generations;
        },
      )
  unfolding push_relation accept_relation
  push_relation-accepts r p b = ground arith

  -- A relation is stored by the decoder with a generation that the assembler accepts.
  pub store_relation-Linked :
      (event : RelationEvent) (g : ℕ)
      → next_generation (relation_of d event.relation_id) event ≡ ok g
      → event.generation ≡ 1
      → Linked (store_relation d event (ok g)).1 (push_relation a (record event { generation = g }))
  unfolding store_relation relation_generation relation_of
  store_relation-Linked event g h one =
      let (p, b) = generation-lem event g h one in
      rw (push_relation-accepts (record event { generation = g }) p b) (record {
        generations = λ k. ground (
          arith,
          linked.generations k,
          get-insert ℕ_discrete event.relation_id k g a.relation_generations,
          get-insert ℕ_discrete event.relation_id k (record event { generation = g }) d.relations,
        );
        positive = λ k r e. ground (
          arith,
          linked.positive k r,
          get-insert ℕ_discrete event.relation_id k (record event { generation = g }) d.relations,
        );
        is_open = linked.is_open;
      })

  pub change-Linked : (e : DecodedMessage) → IsChange d e → Linked d (push a e)
  change-Linked e c = rw (c.pushes a) (push_change-Linked c.change c.is_open c.is_ready)
