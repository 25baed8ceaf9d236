-- ===== src/Metadata/Lease/Tokens.antt =====
-- One acquisition of a lease (crates/metadata/src/store.rs).
use etl_server_cloudberry.Prelude.{
  ℕ, ◌+◌, ◌≤◌, ◌<◌, ◌≡◌, ◌⊎◌, inl, inr, Option, none, some, ok, arith, ite, ℕ_discrete,
  Option-cases,
}
use etl_server_cloudberry.Prelude.Assoc.{get, get-insert}
use etl_server_cloudberry.Metadata.Lease.{
  LeaseRow, PipelineLease, LeaseStore, is_lease_duration, write_lease, may_take, take_over,
  insert_lease, try_acquire_lease,
}

-- What an acquisition finds: no row, or one that has expired or belongs to the same holder, whose
-- token is one less than the new one.
abbrev pub IsTakenFrom : Option LeaseRow → ℕ → ℕ → ℕ → Type 0
IsTakenFrom none holder_id checked token = token ≡ 1
IsTakenFrom (some r) holder_id checked token =
    ((r.expires_at ≤ checked) ⊎ (r.holder_id ≡ holder_id)) × (token ≡ r.fencing_token + 1)

-- What a successful acquisition has done.
pub record IsAcquired (s s' : LeaseStore) (p holder_id ttl written checked : ℕ) (l : PipelineLease)
    : Type 0 where
  pub pipeline : l.pipeline_id ≡ p
  pub holder : l.holder_id ≡ holder_id
  pub expiry : l.expires_at ≡ written + ttl
  pub lasting : 0 < ttl
  pub taken : IsTakenFrom (get ℕ_discrete p s.leases) holder_id checked l.fencing_token
  pub leases :
      (q : ℕ)
      → get ℕ_discrete q s'.leases
        ≡ ite
            (ℕ_discrete p q)
            (some (record {
              holder_id = holder_id;
              fencing_token = l.fencing_token;
              expires_at = written + ttl;
            }))
            (get ℕ_discrete q s.leases)

-- An acquisition that succeeds found no lease, an expired one or its own; it takes the next token for
-- the holder until the clock's reading plus the duration, and leaves the other pipelines alone.
pub acquire-IsAcquired :
    (s : LeaseStore) (p holder_id ttl written checked : ℕ) {l : PipelineLease} {s' : LeaseStore}
    → try_acquire_lease s p holder_id ttl written checked ≡ (ok (some l), s')
    → IsAcquired s s' p holder_id ttl written checked l
unfolding try_acquire_lease is_lease_duration insert_lease take_over may_take write_lease
acquire-IsAcquired s p holder_id ttl written checked h =
    elim (Option-cases (get ℕ_discrete p s.leases)) [
      | inl e ↦ record {
        pipeline = ground arith;
        holder = ground arith;
        expiry = ground arith;
        lasting = ground arith;
        taken = rw e (ground arith);
        leases = λ q. ground (
          arith,
          get-insert ℕ_discrete p q
              (record { holder_id = holder_id; fencing_token = 1; expires_at = written + ttl })
              s.leases,
        );
      }
      | inr (r, e) ↦ record {
        pipeline = ground arith;
        holder = ground arith;
        expiry = ground arith;
        lasting = ground arith;
        taken = rw e (ground arith);
        leases = λ q. ground (
          arith,
          get-insert ℕ_discrete p q
              (record {
                holder_id = holder_id;
                fencing_token = r.fencing_token + 1;
                expires_at = written + ttl;
              })
              s.leases,
        );
      }
    ]
