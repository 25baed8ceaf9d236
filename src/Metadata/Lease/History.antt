-- ===== src/Metadata/Lease/History.antt =====
-- Sequences of acquisitions, renewals and releases (crates/metadata/src/store.rs) by any holders.
use etl_server_cloudberry.Prelude.{
  Result-cases, ap, ℕ, ◌+◌, ◌≤◌, ◌<◌, ◌≡◌, sym, subst, ◌⊎◌, inl, inr, Option, none, some, List, [],
  ◌∷◌, ok, err, arith, if_neg, if_pos, ℕ_discrete, Option-cases, Bool-cases, ◌&&◌, ltb,
}
use etl_server_cloudberry.Prelude.Assoc.{get, insert, get-insert, get-insert_ne}
use etl_server_cloudberry.Metadata.Lease.{
  LeaseRow, PipelineLease, LeaseStore, StoreError, write_lease, take_over, insert_lease,
  try_acquire_lease, is_held_by, is_lease_duration, renew_row, renew_lease, release_row,
  release_lease,
}
use etl_server_cloudberry.Metadata.Lease.Tokens.{IsTakenFrom, IsAcquired, acquire-IsAcquired}

-- The arguments are those of the operations, the clock's readings included.
pub data LeaseRequest : Type 0 where
  acquire : ℕ → ℕ → ℕ → ℕ → ℕ → LeaseRequest
  renew : PipelineLease → ℕ → ℕ → ℕ → LeaseRequest
  release : PipelineLease → ℕ → LeaseRequest

unfoldable pub serve : LeaseStore → LeaseRequest → LeaseStore
serve s (acquire p holder_id ttl written checked) =
    (try_acquire_lease s p holder_id ttl written checked).1
serve s (renew l ttl written checked) = (renew_lease s l ttl written checked).1
serve s (release l written) = release_lease s l written

unfoldable pub serve_all : LeaseStore → List LeaseRequest → LeaseStore
serve_all s [] = s
serve_all s (r ∷ rs) = serve_all (serve s r) rs

-- The pipeline's token has reached `t`.
abbrev pub HasReached : ℕ → Option LeaseRow → Type 0
HasReached t none = ⊥
HasReached t (some r) = t ≤ r.fencing_token

-- `s'` differs from `s` in the expiry of one lease at most.
abbrev pub IsTouched : LeaseStore → LeaseStore → ℕ → Type 0
IsTouched s s' p =
    (s' ≡ s)
    ⊎ ((r : LeaseRow) × (e : ℕ) × (get ℕ_discrete p s.leases ≡ some r)
        × (s' ≡ record s { leases = insert ℕ_discrete p (record r { expires_at = e }) s.leases }))

pub renew-IsTouched :
    (s : LeaseStore) (l : PipelineLease) (ttl written checked : ℕ)
    → IsTouched s (renew_lease s l ttl written checked).1 l.pipeline_id
unfolding renew_lease renew_row write_lease
renew-IsTouched s l ttl written checked =
    elim (Option-cases (get ℕ_discrete l.pipeline_id s.leases)) [
      | inl e ↦ inl (ground arith)
      | inr (r, e) ↦
          elim (Bool-cases
            (is_lease_duration ttl && (is_held_by r l && ltb checked r.expires_at))) [
              | inl go ↦ inr (r, written + ttl, e, ground arith)
              | inr stay ↦ inl (ground arith)
            ]
    ]

pub release-IsTouched :
    (s : LeaseStore) (l : PipelineLease) (written : ℕ)
    → IsTouched s (release_lease s l written) l.pipeline_id
unfolding release_lease release_row
release-IsTouched s l written = elim (Option-cases (get ℕ_discrete l.pipeline_id s.leases)) [
  | inl e ↦ inl (ground arith)
  | inr (r, e) ↦ elim (Bool-cases (is_held_by r l)) [
    | inl go ↦ inr (r, written, e, ground arith)
    | inr stay ↦ inl (ground arith)
  ]
]

touched-HasReached :
    (s s' : LeaseStore) (p q t : ℕ)
    → IsTouched s s' p
    → HasReached t (get ℕ_discrete q s.leases)
    → HasReached t (get ℕ_discrete q s'.leases)
touched-HasReached s s' p q t (inl e) h = rw e h
touched-HasReached s s' p q t (inr (r, x, at, e)) h = elim (ℕ_discrete p q) [
  | yes same ↦
      let k = subst (λ (y : ℕ). get ℕ_discrete y s.leases ≡ some r) same at in
      let h' : t ≤ r.fencing_token = subst (HasReached t) k h in
      rw
        (
          e,
          get-insert ℕ_discrete p q (record r { expires_at = x }) s.leases,
          if_pos (ℕ_discrete p q) same,
        )
        h'
  | no other ↦ rw (e, get-insert_ne ℕ_discrete p q (record r { expires_at = x }) s.leases other) h
]

acquire_refused :
    (s : LeaseStore) (p holder_id ttl written checked : ℕ)
    → (try_acquire_lease s p holder_id ttl written checked).0 ≡ ok none
    → (try_acquire_lease s p holder_id ttl written checked).1 ≡ s
unfolding try_acquire_lease insert_lease take_over write_lease
acquire_refused s p holder_id ttl written checked h = ground arith

acquire_failed :
    (s : LeaseStore) (p holder_id ttl written checked : ℕ) {x : StoreError}
    → (try_acquire_lease s p holder_id ttl written checked).0 ≡ err x
    → (try_acquire_lease s p holder_id ttl written checked).1 ≡ s
unfolding try_acquire_lease insert_lease take_over write_lease
acquire_failed s p holder_id ttl written checked h = ground arith

pub acquire-cases :
    (s : LeaseStore) (p holder_id ttl written checked : ℕ)
    → let o = try_acquire_lease s p holder_id ttl written checked in
      (o.1 ≡ s) ⊎ ((l : PipelineLease) × (o ≡ (ok (some l), o.1)))
acquire-cases s p holder_id ttl written checked =
    let o = try_acquire_lease s p holder_id ttl written checked in
    elim (Result-cases o.0) [
      | inr (x, e) ↦ inl (acquire_failed s p holder_id ttl written checked e)
      | inl (none, e) ↦ inl (acquire_refused s p holder_id ttl written checked e)
      | inl (some l, e) ↦ inr (l, ap (λ x. (x, o.1)) e)
    ]

pub taken-HasReached :
    (o : Option LeaseRow) (holder_id checked token t : ℕ)
    → IsTakenFrom o holder_id checked token
    → HasReached t o
    → t < token
taken-HasReached none holder_id checked token t i h = absurd h
taken-HasReached (some r) holder_id checked token t i h = omega arith

pub acquired-HasReached :
    (s s' : LeaseStore) (p q t holder_id ttl written checked : ℕ) (l : PipelineLease)
    → IsAcquired s s' p holder_id ttl written checked l
    → HasReached t (get ℕ_discrete q s.leases)
    → HasReached t (get ℕ_discrete q s'.leases)
acquired-HasReached s s' p q t holder_id ttl written checked l a h = elim (ℕ_discrete p q) [
  | yes same ↦
      let k = subst (λ (y : ℕ). HasReached t (get ℕ_discrete y s.leases)) (sym same) h in
      let lt =
        taken-HasReached (get ℕ_discrete p s.leases) holder_id checked l.fencing_token t a.taken
          k in
      rw (a.leases q, if_pos (ℕ_discrete p q) same) (omega arith)
  | no other ↦ rw (a.leases q, if_neg (ℕ_discrete p q) other) h
]

serve-HasReached :
    (s : LeaseStore) (r : LeaseRequest) (q t : ℕ)
    → HasReached t (get ℕ_discrete q s.leases)
    → HasReached t (get ℕ_discrete q (serve s r).leases)
unfolding serve
serve-HasReached s (acquire p holder_id ttl written checked) q t h =
    elim (acquire-cases s p holder_id ttl written checked) [
      | inl e ↦ rw e h
      | inr (l, e) ↦
          acquired-HasReached s _ p q t holder_id ttl written checked l
            (acquire-IsAcquired s p holder_id ttl written checked e) h
    ]
serve-HasReached s (renew l ttl written checked) q t h =
    touched-HasReached s _ l.pipeline_id q t (renew-IsTouched s l ttl written checked) h
serve-HasReached s (release l written) q t h =
    touched-HasReached s _ l.pipeline_id q t (release-IsTouched s l written) h

pub serve_all-HasReached :
    (rs : List LeaseRequest) (s : LeaseStore) (q t : ℕ)
    → HasReached t (get ℕ_discrete q s.leases)
    → HasReached t (get ℕ_discrete q (serve_all s rs).leases)
unfolding serve_all
serve_all-HasReached [] s q t h = h
serve_all-HasReached (r ∷ rs) s q t h =
    serve_all-HasReached rs (serve s r) q t (serve-HasReached s r q t h)
