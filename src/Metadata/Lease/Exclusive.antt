-- ===== src/Metadata/Lease/Exclusive.antt =====
-- An unexpired lease (crates/metadata/src/store.rs) against the requests of others.
use etl_server_cloudberry.Prelude.{
  ℕ, ◌<◌, ◌≡◌, ◌≢◌, refl, sym, subst, ◌∙◌, ◌⊎◌, inl, inr, some, List, [], ◌∷◌, All, arith, if_neg,
  ℕ_discrete,
}
use etl_server_cloudberry.Prelude.Assoc.{get, get-insert_ne}
use etl_server_cloudberry.Metadata.Lease.{
  LeaseRow, PipelineLease, LeaseStore, may_take, take_over, try_acquire_lease, is_held_by,
  renew_row, renew_lease, release_row, release_lease,
}
use etl_server_cloudberry.Metadata.Lease.Tokens.{acquire-IsAcquired}
use etl_server_cloudberry.Metadata.Lease.History.{
  LeaseRequest, acquire, renew, release, serve, serve_all, IsTouched, renew-IsTouched,
  release-IsTouched, acquire-cases,
}

-- A request on another pipeline, or one that is not the holder's; an acquisition is made before the
-- lease expires.
abbrev pub IsForeign : ℕ → LeaseRow → LeaseRequest → Type 0
IsForeign p r (acquire q holder_id ttl written checked) =
    (q ≢ p) ⊎ ((holder_id ≢ r.holder_id) × (checked < r.expires_at))
IsForeign p r (renew l ttl written checked) = (l.pipeline_id ≢ p) ⊎ (l.holder_id ≢ r.holder_id)
IsForeign p r (release l written) = (l.pipeline_id ≢ p) ⊎ (l.holder_id ≢ r.holder_id)

acquire_blocked :
    (s : LeaseStore) (p holder_id ttl written checked : ℕ) (r : LeaseRow)
    → get ℕ_discrete p s.leases ≡ some r
    → holder_id ≢ r.holder_id
    → checked < r.expires_at
    → (try_acquire_lease s p holder_id ttl written checked).1 ≡ s
unfolding try_acquire_lease take_over may_take
acquire_blocked s p holder_id ttl written checked r at other early = ground arith

renew_foreign :
    (s : LeaseStore) (l : PipelineLease) (ttl written checked : ℕ) (r : LeaseRow)
    → get ℕ_discrete l.pipeline_id s.leases ≡ some r
    → l.holder_id ≢ r.holder_id
    → (renew_lease s l ttl written checked).1 ≡ s
unfolding renew_lease renew_row is_held_by
renew_foreign s l ttl written checked r at other = ground arith

release_foreign :
    (s : LeaseStore) (l : PipelineLease) (written : ℕ) (r : LeaseRow)
    → get ℕ_discrete l.pipeline_id s.leases ≡ some r
    → l.holder_id ≢ r.holder_id
    → release_lease s l written ≡ s
unfolding release_lease release_row is_held_by
release_foreign s l written r at other = ground arith

touched_other :
    (s s' : LeaseStore) (q p : ℕ)
    → IsTouched s s' q
    → q ≢ p
    → get ℕ_discrete p s'.leases ≡ get ℕ_discrete p s.leases
touched_other s s' q p (inl e) other = rw e refl
touched_other s s' q p (inr (r, x, at, e)) other =
    rw e (get-insert_ne ℕ_discrete q p (record r { expires_at = x }) s.leases other)

acquire_other :
    (s : LeaseStore) (q p holder_id ttl written checked : ℕ)
    → q ≢ p
    → get ℕ_discrete p (try_acquire_lease s q holder_id ttl written checked).1.leases
      ≡ get ℕ_discrete p s.leases
acquire_other s q p holder_id ttl written checked other =
    elim (acquire-cases s q holder_id ttl written checked) [
      | inl e ↦ rw e refl
      | inr (l, e) ↦
          (acquire-IsAcquired s q holder_id ttl written checked e).leases p
          ∙ if_neg (ℕ_discrete q p) other _ _
    ]

serve-IsForeign :
    (s : LeaseStore) (request : LeaseRequest) (p : ℕ) (r : LeaseRow)
    → get ℕ_discrete p s.leases ≡ some r
    → IsForeign p r request
    → get ℕ_discrete p (serve s request).leases ≡ some r
unfolding serve
serve-IsForeign s (acquire q holder_id ttl written checked) p r at (inl other) =
    acquire_other s q p holder_id ttl written checked other ∙ at
serve-IsForeign s (acquire q holder_id ttl written checked) p r at (inr (other, early)) =
    elim (ℕ_discrete q p) [
      | no apart ↦ acquire_other s q p holder_id ttl written checked apart ∙ at
      | yes same ↦
          let here = subst (λ (x : ℕ). get ℕ_discrete x s.leases ≡ some r) (sym same) at in
          rw (acquire_blocked s q holder_id ttl written checked r here other early) at
    ]
serve-IsForeign s (renew l ttl written checked) p r at (inl other) =
    touched_other s _ l.pipeline_id p (renew-IsTouched s l ttl written checked) other ∙ at
serve-IsForeign s (renew l ttl written checked) p r at (inr other) =
    elim (ℕ_discrete l.pipeline_id p) [
      | no apart ↦
          touched_other s _ l.pipeline_id p (renew-IsTouched s l ttl written checked) apart ∙ at
      | yes same ↦
          let here = subst (λ (x : ℕ). get ℕ_discrete x s.leases ≡ some r) (sym same) at in
          rw (renew_foreign s l ttl written checked r here other) at
    ]
serve-IsForeign s (release l written) p r at (inl other) =
    touched_other s _ l.pipeline_id p (release-IsTouched s l written) other ∙ at
serve-IsForeign s (release l written) p r at (inr other) = elim (ℕ_discrete l.pipeline_id p) [
  | no apart ↦ touched_other s _ l.pipeline_id p (release-IsTouched s l written) apart ∙ at
  | yes same ↦
      let here = subst (λ (x : ℕ). get ℕ_discrete x s.leases ≡ some r) (sym same) at in
      rw (release_foreign s l written r here other) at
]

-- A lease stays as it is, holder, token and expiry, through any requests of others: requests on other
-- pipelines, renewals and releases that are not its holder's, and acquisitions by others that are
-- checked before it expires.
pub serve_all-IsForeign :
    (rs : List LeaseRequest) (s : LeaseStore) (p : ℕ) (r : LeaseRow)
    → get ℕ_discrete p s.leases ≡ some r
    → All (IsForeign p r) rs
    → get ℕ_discrete p (serve_all s rs).leases ≡ some r
unfolding serve_all
serve_all-IsForeign [] s p r at h = at
serve_all-IsForeign (x ∷ rs) s p r at h =
    serve_all-IsForeign rs (serve s x) p r (serve-IsForeign s x p r at h.0) h.1
