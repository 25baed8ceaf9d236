-- ===== src/Source/Wal/Decoder/Generations.antt =====
-- The generations of relations in the decoder of crates/source-postgres/src/wal.rs.
use etl_server_cloudberry.Prelude.{
  ℕ, ℤ, and_true, ◌<◌, ◌≡◌, refl, ◌∙◌, ◌⊎◌, inl, inr, Bool, true, some, List, [], ◌∷◌, Bytes, ◌==◌,
  is_yes, ==→eq, is_yes-eq_true, Bool-cases, ℕ_discrete, ok, err, arith, Bytes-discrete,
}
use etl_server_cloudberry.Prelude.Assoc.{get-insert}
use etl_server_cloudberry.Source.Wal.{SourceResult, RelationEvent}
use etl_server_cloudberry.Source.Protocol.{LogicalReplicationMessage}
use etl_server_cloudberry.Source.Protocol
use etl_server_cloudberry.Source.Ddl.{DdlEnvelope}
use etl_server_cloudberry.Source.Wal.Decoder.{
  TransactionDecoder, relation_of, relation_shape_equal, next_generation, store_relation,
  on_relation, relation_event, decode_begin, decode_commit, decode,
  WireReplicaIdentityKind-discrete, Columns-discrete,
}

-- A later event of the relation has a higher generation, or it is the same event.
abbrev pub Newer : RelationEvent → RelationEvent → Type 0
Newer r s = (r.generation < s.generation) ⊎ (s ≡ r)

Newer-trans : (r s t : RelationEvent) → Newer r s → Newer s t → Newer r t
Newer-trans r s t (inl h) (inl k) = inl (omega arith)
Newer-trans r s t (inl h) (inr e) = inl (rw e h)
Newer-trans r s t (inr e) (inl k) = inl (rw (← e) k)
Newer-trans r s t (inr e) (inr f) = inr (f ∙ e)

relation_shape_equal-eq :
    (r s : RelationEvent)
    → relation_shape_equal r s ≡ true
    → record s { generation = r.generation } ≡ r
unfolding relation_shape_equal
relation_shape_equal-eq r s h =
    let k1 = and_true (r.relation_id == s.relation_id) _ h in
    let k2 = and_true (is_yes (Bytes-discrete r.namespace s.namespace)) _ k1.1 in
    let k3 = and_true (is_yes (Bytes-discrete r.name s.name)) _ k2.1 in
    let k4 =
      and_true (is_yes (WireReplicaIdentityKind-discrete r.replica_identity s.replica_identity)) _
        k3.1 in
    let e1 = ==→eq r.relation_id s.relation_id k1.0 in
    let e2 = is_yes-eq_true (Bytes-discrete r.namespace s.namespace) k2.0 in
    let e3 = is_yes-eq_true (Bytes-discrete r.name s.name) k3.0 in
    let e4 =
      is_yes-eq_true (WireReplicaIdentityKind-discrete r.replica_identity s.replica_identity)
        k4.0 in
    let e5 = is_yes-eq_true (Columns-discrete r.columns s.columns) k4.1 in grind arith

abbrev pub Later : RelationEvent → TransactionDecoder → ℕ → Type 0
Later r d k = (s : RelationEvent) × (relation_of d k ≡ some s) × Newer r s

-- An event that a relation gets after `r` is the same event or has the next generation.
pub next_generation-Newer :
    (r event : RelationEvent) (g : ℕ)
    → next_generation (some r) event ≡ ok g
    → Newer r (record event { generation = g })
unfolding next_generation
next_generation-Newer r event g h = elim (Bool-cases (relation_shape_equal r event)) [
  | inl e ↦
      let same : r.generation ≡ g = ground arith in
      inr (rw (← same) (relation_shape_equal-eq r event e))
  | inr e ↦ inl (ground arith)
]

module _ (d : TransactionDecoder) (k : ℕ) (r : RelationEvent)
    (known : relation_of d k ≡ some r) where
  store_relation-Later :
      (event : RelationEvent) (res : SourceResult ℕ)
      → next_generation (relation_of d event.relation_id) event ≡ res
      → Later r (store_relation d event res).1 k
  unfolding store_relation relation_of
  store_relation-Later event (err e) h = (r, known, inr refl)
  store_relation-Later event (ok g) h = elim (ℕ_discrete event.relation_id k) [
    | yes e ↦ (
      record event { generation = g },
      ground (
        arith,
        get-insert ℕ_discrete event.relation_id k (record event { generation = g }) d.relations,
      ),
      next_generation-Newer r event g (ground arith),
    )
    | no n ↦ (
      r,
      ground (
        arith,
        get-insert ℕ_discrete event.relation_id k (record event { generation = g }) d.relations,
      ),
      inr refl,
    )
  ]

  on_relation-Later : (res : SourceResult RelationEvent) → Later r (on_relation d res).1 k
  unfolding on_relation
  on_relation-Later (err e) = (r, known, inr refl)
  on_relation-Later (ok event) = store_relation-Later event _ refl

module _ (from_slice : Bytes → SourceResult DdlEnvelope) (timestamp_micros : ℤ → Bool) where
  decode-Later :
      (d : TransactionDecoder) (k : ℕ) (r : RelationEvent) (m : LogicalReplicationMessage)
      → relation_of d k ≡ some r
      → Later r (decode from_slice timestamp_micros d m).1 k
  unfolding decode decode_begin decode_commit relation_of
  decode-Later d k r (Protocol.begin body) h = (r, ground arith, inr refl)
  decode-Later d k r (Protocol.commit body) h = (r, ground arith, inr refl)
  decode-Later d k r (Protocol.relation body) h = on_relation-Later d k r h (relation_event body)
  decode-Later d k r m h = (r, ground arith, inr refl)

  -- The decoder after a sequence of messages, refused ones included.
  pub decode_all : TransactionDecoder → List LogicalReplicationMessage → TransactionDecoder
  decode_all d [] = d
  decode_all d (m ∷ ms) = decode_all (decode from_slice timestamp_micros d m).1 ms

  -- A relation that the decoder knows stays known, and its generation never goes down. While the
  -- generation stays, so does all that is known of the relation: a generation names one shape.
  pub decode_all-Newer :
      (ms : List LogicalReplicationMessage) (d : TransactionDecoder) (k : ℕ) (r : RelationEvent)
      → relation_of d k ≡ some r
      → (s : RelationEvent) × (relation_of (decode_all d ms) k ≡ some s) × Newer r s
  unfolding decode_all
  decode_all-Newer [] d k r h = (r, h, inr refl)
  decode_all-Newer (m ∷ ms) d k r h =
      let (s, e, n) = decode-Later d k r m h in
      let (t, f, o) = decode_all-Newer ms (decode from_slice timestamp_micros d m).1 k s e in
      (t, f, Newer-trans r s t n o)
