-- ===== src/Metadata/Lease.antt =====
-- crates/metadata/src/store.rs: the leases on pipelines. The table is an association list by its
-- primary key, each SQL statement is a function on it, and an error leaves it as it was. Times and
-- durations are in microseconds, the resolution of `timestamptz`; the settings give whole seconds. A
-- statement reads the clock where it computes the new expiry (`written`) and where it checks the old
-- one (`checked`).
pub mod Tokens
pub mod History
pub mod Ownership
pub mod Exclusive
use etl_server_cloudberry.Prelude.{
  ℕ, ◌+◌, Bool, true, false, ◌&&◌, ◌||◌, Option, none, some, List, any, leb, ltb, ◌==◌,
  if◌then◌else◌, Result, ok, err, ℕ_discrete,
}
use etl_server_cloudberry.Prelude.Assoc.{Assoc, get, insert}
use etl_server_cloudberry.Target.Checkpoint.{i64_max}

-- The columns beside the primary key; the table requires a positive token.
pub record LeaseRow : Type 0 where
  pub holder_id : ℕ
  pub fencing_token : ℕ
  pub expires_at : ℕ

pub record PipelineLease : Type 0 where
  pub pipeline_id : ℕ
  pub holder_id : ℕ
  pub fencing_token : ℕ
  pub expires_at : ℕ

-- The ids in `pipelines`, which a lease refers to, and `pipeline_leases`.
pub record LeaseStore : Type 0 where
  pub pipelines : List ℕ
  pub leases : Assoc ℕ LeaseRow

-- `foreign_key` and `out_of_range` are errors that the database reports.
pub data StoreError : Type 0 where
  invalid_lease_duration foreign_key out_of_range : StoreError

abbrev pub Stored : Type 0
Stored = Result StoreError (Option PipelineLease) × LeaseStore

-- `duration_seconds`: more than nothing, and a day at most.
unfoldable pub is_lease_duration : ℕ → Bool
is_lease_duration ttl = ltb 0 ttl && leb ttl 86_400_000_000

abbrev pub lease_from_row : ℕ → LeaseRow → PipelineLease
lease_from_row pipeline_id r = record {
  pipeline_id = pipeline_id;
  holder_id = r.holder_id;
  fencing_token = r.fencing_token;
  expires_at = r.expires_at;
}

-- A row is written and returned.
unfoldable pub write_lease : LeaseStore → ℕ → LeaseRow → Stored
write_lease s pipeline_id r = (
  ok (some (lease_from_row pipeline_id r)),
  record s { leases = insert ℕ_discrete pipeline_id r s.leases },
)

-- `WHERE expires_at <= clock_timestamp() OR holder_id = EXCLUDED.holder_id`.
unfoldable pub may_take : LeaseRow → ℕ → ℕ → Bool
may_take r holder_id checked = leb r.expires_at checked || r.holder_id == holder_id

-- `ON CONFLICT (pipeline_id) DO UPDATE`.
unfoldable pub take_over : LeaseStore → ℕ → ℕ → ℕ → ℕ → LeaseRow → Stored
take_over s pipeline_id holder_id expires_at checked r =
    if may_take r holder_id checked
    then if ltb r.fencing_token i64_max
      then write_lease s pipeline_id (record {
        holder_id = holder_id;
        fencing_token = r.fencing_token + 1;
        expires_at = expires_at;
      })
      else (err out_of_range, s)
    else (ok none, s)

unfoldable pub insert_lease : LeaseStore → ℕ → ℕ → ℕ → Stored
insert_lease s pipeline_id holder_id expires_at =
    if any (λ p. p == pipeline_id) s.pipelines
    then write_lease s pipeline_id
        (record { holder_id = holder_id; fencing_token = 1; expires_at = expires_at })
    else (err foreign_key, s)

unfoldable pub try_acquire_lease : LeaseStore → ℕ → ℕ → ℕ → ℕ → ℕ → Stored
try_acquire_lease s pipeline_id holder_id ttl written checked =
    if is_lease_duration ttl
    then elim (get ℕ_discrete pipeline_id s.leases) [
      | none ↦ insert_lease s pipeline_id holder_id (written + ttl)
      | some r ↦ take_over s pipeline_id holder_id (written + ttl) checked r
    ]
    else (err invalid_lease_duration, s)

-- The row of the lease, at its token.
unfoldable pub is_held_by : LeaseRow → PipelineLease → Bool
is_held_by r l = r.holder_id == l.holder_id && r.fencing_token == l.fencing_token

unfoldable pub renew_row : LeaseStore → PipelineLease → ℕ → ℕ → LeaseRow → Stored
renew_row s l expires_at checked r =
    if is_held_by r l && ltb checked r.expires_at
    then write_lease s l.pipeline_id (record r { expires_at = expires_at })
    else (ok none, s)

unfoldable pub renew_lease : LeaseStore → PipelineLease → ℕ → ℕ → ℕ → Stored
renew_lease s l ttl written checked =
    if is_lease_duration ttl
    then elim (get ℕ_discrete l.pipeline_id s.leases) [
      | none ↦ (ok none, s)
      | some r ↦ renew_row s l (written + ttl) checked r
    ]
    else (err invalid_lease_duration, s)

unfoldable pub release_row : LeaseStore → PipelineLease → ℕ → LeaseRow → LeaseStore
release_row s l written r =
    if is_held_by r l
    then record s {
      leases = insert ℕ_discrete l.pipeline_id (record r { expires_at = written }) s.leases;
    }
    else s

unfoldable pub release_lease : LeaseStore → PipelineLease → ℕ → LeaseStore
release_lease s l written = elim (get ℕ_discrete l.pipeline_id s.leases) [
  | none ↦ s
  | some r ↦ release_row s l written r
]
