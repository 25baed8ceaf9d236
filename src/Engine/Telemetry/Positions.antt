-- ===== src/Engine/Telemetry/Positions.antt =====
-- The positions and the lag that crates/engine/src/telemetry.rs reports, over sequences of updates.
use etl_server_cloudberry.Prelude.{
  ap, inr, inl, ◌⊎◌, ◌+◌, All, dec_le, ℕ, ℤ, ◌-◌, ◌+◌, ◌≤◌, ◌≡◌, refl, Bool, Option, none, some,
  List, [], ◌∷◌, Text, arith,
}
use etl_server_cloudberry.Core.Change.{PgLsn}
use etl_server_cloudberry.Core.Pipeline.{PipelinePhase}
use etl_server_cloudberry.Engine.Telemetry.{
  PipelineRuntimeSnapshot, byte_lag, with_lag, advance, mark_started, mark_running, mark_stopped,
  trim_error, store_error, mark_failed, mark_degraded, set_phase, source_received,
  transaction_received, checkpoint_initialized, applied, acknowledged, wal_retention_observed,
  report_error,
}

-- A call on the handle, with the clock's reading where it takes one.
pub data Update : Type 0 where
  started stopped : ℤ → Update
  running : Update
  failed : ℤ → Text → Update
  degraded reported : Text → Update
  phase : PipelinePhase → Update
  received initialized : PgLsn → Update
  transaction : PgLsn → ℤ → Update
  apply acknowledge : ℤ → PgLsn → Update
  retention : Option ℕ → Option ℕ → Bool → Update

abbrev pub update : PipelineRuntimeSnapshot → Update → PipelineRuntimeSnapshot
update s (started now) = mark_started s now
update s (stopped now) = mark_stopped s now
update s running = mark_running s
update s (failed now message) = (mark_failed s now message).1
update s (degraded message) = (mark_degraded s message).1
update s (reported message) = (report_error s message).1
update s (phase p) = set_phase s p
update s (received lsn) = source_received s lsn
update s (initialized lsn) = checkpoint_initialized s lsn
update s (transaction lsn commit_time) = transaction_received s lsn commit_time
update s (apply now lsn) = applied s now lsn
update s (acknowledge now lsn) = acknowledged s now lsn
update s (retention retained safe warning) = wal_retention_observed s retained safe warning

pub update_all : PipelineRuntimeSnapshot → List Update → PipelineRuntimeSnapshot
update_all s [] = s
update_all s (u ∷ us) = update_all (update s u) us

-- A position that is known stays known, and does not go back.
infix 50 ◌≼◌
abbrev pub ◌≼◌ : Option PgLsn → Option PgLsn → Type 0
none ≼ q = Unit {0}
some a ≼ none = ⊥
some a ≼ some b = a ≤ b

≼-refl : (p : Option PgLsn) → p ≼ p
≼-refl none = tt
≼-refl (some a) = omega arith

≼-trans : (p q r : Option PgLsn) → p ≼ q → q ≼ r → p ≼ r
≼-trans none q r h k = tt
≼-trans (some a) none r h k = absurd h
≼-trans (some a) (some b) none h k = absurd k
≼-trans (some a) (some b) (some c) h k = omega arith

advance-≼ : (p : Option PgLsn) (lsn : PgLsn) → p ≼ advance p lsn
unfolding advance
advance-≼ none lsn = tt
advance-≼ (some a) lsn = ground arith

-- The lag of a checkpoint behind a received position: how far it is behind, and 0 if it is ahead.
-- There is none until both are known.
abbrev pub IsLag : Option PgLsn → Option PgLsn → Option ℕ → Type 0
IsLag (some head) (some checkpoint) lag =
    ((n : ℕ) × (lag ≡ some n) × (checkpoint + n ≡ head)) ⊎ ((head ≤ checkpoint) × (lag ≡ some 0))
IsLag _ _ lag = lag ≡ none

byte_lag-IsLag : (head checkpoint : Option PgLsn) → IsLag head checkpoint (byte_lag head checkpoint)
unfolding byte_lag
byte_lag-IsLag none checkpoint = refl
byte_lag-IsLag (some head) none = refl
byte_lag-IsLag (some head) (some checkpoint) = elim (dec_le checkpoint head) [
  | yes h ↦ inl (head - checkpoint, refl, omega arith)
  | no h ↦ inr (omega arith, ap some (omega arith))
]

-- From `s` to `t` no position goes back, and `t` reports the lag of its positions.
pub record Follows (s t : PipelineRuntimeSnapshot) : Type 0 where
  pub received : s.source_received_lsn ≼ t.source_received_lsn
  pub current : s.source_current_lsn ≼ t.source_current_lsn
  pub checkpoint : s.target_checkpoint_lsn ≼ t.target_checkpoint_lsn
  pub lag : IsLag t.source_received_lsn t.target_checkpoint_lsn t.estimated_byte_lag

abbrev pub HasLag : PipelineRuntimeSnapshot → Type 0
HasLag s = IsLag s.source_received_lsn s.target_checkpoint_lsn s.estimated_byte_lag

-- An update that leaves the positions alone.
still :
    (s t : PipelineRuntimeSnapshot)
    → t.source_received_lsn ≡ s.source_received_lsn
    → t.source_current_lsn ≡ s.source_current_lsn
    → t.target_checkpoint_lsn ≡ s.target_checkpoint_lsn
    → HasLag t
    → Follows s t
still s t e f g h = record {
  received = rw e (≼-refl s.source_received_lsn);
  current = rw f (≼-refl s.source_current_lsn);
  checkpoint = rw g (≼-refl s.target_checkpoint_lsn);
  lag = h;
}

store_error-Follows :
    (s t : PipelineRuntimeSnapshot) (error : Option Text)
    → t.source_received_lsn ≡ s.source_received_lsn
    → t.source_current_lsn ≡ s.source_current_lsn
    → t.target_checkpoint_lsn ≡ s.target_checkpoint_lsn
    → HasLag t
    → Follows s (store_error t error).1
unfolding store_error with_lag
store_error-Follows s t none e f g h = still s t e f g h
store_error-Follows s t (some error) e f g h = still s _ e f g (byte_lag-IsLag _ _)

update-Follows : (s : PipelineRuntimeSnapshot) (u : Update) → HasLag s → Follows s (update s u)
unfolding mark_started mark_running mark_stopped mark_failed mark_degraded report_error set_phase
    source_received checkpoint_initialized transaction_received applied acknowledged
    wal_retention_observed with_lag
update-Follows s (started now) h = still s _ refl refl refl (byte_lag-IsLag _ _)
update-Follows s (stopped now) h = still s _ refl refl refl (byte_lag-IsLag _ _)
update-Follows s running h = still s _ refl refl refl (byte_lag-IsLag _ _)
update-Follows s (failed now message) h =
    store_error-Follows s _ (trim_error message) refl refl refl h
update-Follows s (degraded message) h =
    store_error-Follows s _ (trim_error message) refl refl refl h
update-Follows s (reported message) h =
    store_error-Follows s s (trim_error message) refl refl refl h
update-Follows s (phase p) h = still s _ refl refl refl (byte_lag-IsLag _ _)
update-Follows s (received lsn) h = record {
  received = advance-≼ s.source_received_lsn lsn;
  current = ≼-refl s.source_current_lsn;
  checkpoint = ≼-refl s.target_checkpoint_lsn;
  lag = byte_lag-IsLag _ _;
}
update-Follows s (initialized lsn) h = record {
  received = ≼-refl s.source_received_lsn;
  current = ≼-refl s.source_current_lsn;
  checkpoint = advance-≼ s.target_checkpoint_lsn lsn;
  lag = byte_lag-IsLag _ _;
}
update-Follows s (transaction lsn commit_time) h = record {
  received = advance-≼ s.source_received_lsn lsn;
  current = advance-≼ s.source_current_lsn lsn;
  checkpoint = ≼-refl s.target_checkpoint_lsn;
  lag = byte_lag-IsLag _ _;
}
update-Follows s (apply now lsn) h = record {
  received = ≼-refl s.source_received_lsn;
  current = ≼-refl s.source_current_lsn;
  checkpoint = advance-≼ s.target_checkpoint_lsn lsn;
  lag = byte_lag-IsLag _ _;
}
update-Follows s (acknowledge now lsn) h = record {
  received = ≼-refl s.source_received_lsn;
  current = ≼-refl s.source_current_lsn;
  checkpoint = advance-≼ s.target_checkpoint_lsn lsn;
  lag = byte_lag-IsLag _ _;
}
update-Follows s (retention retained safe warning) h = still s _ refl refl refl (byte_lag-IsLag _ _)

-- The positions that an update reports are reached in `t`.
abbrev pub IsReached : PipelineRuntimeSnapshot → Update → Type 0
IsReached t (received lsn) = some lsn ≼ t.source_received_lsn
IsReached t (transaction lsn commit_time) =
    (some lsn ≼ t.source_received_lsn) × (some lsn ≼ t.source_current_lsn)
IsReached t (initialized lsn) = some lsn ≼ t.target_checkpoint_lsn
IsReached t (apply now lsn) = some lsn ≼ t.target_checkpoint_lsn
IsReached t (acknowledge now lsn) = some lsn ≼ t.target_checkpoint_lsn
IsReached t _ = Unit {0}

advance-reached : (p : Option PgLsn) (lsn : PgLsn) → some lsn ≼ advance p lsn
unfolding advance
advance-reached none lsn = omega arith
advance-reached (some a) lsn = ground arith

update-IsReached : (s : PipelineRuntimeSnapshot) (u : Update) → IsReached (update s u) u
unfolding source_received checkpoint_initialized transaction_received applied acknowledged with_lag
update-IsReached s (received lsn) = advance-reached s.source_received_lsn lsn
update-IsReached s (transaction lsn commit_time) =
    (advance-reached s.source_received_lsn lsn, advance-reached s.source_current_lsn lsn)
update-IsReached s (initialized lsn) = advance-reached s.target_checkpoint_lsn lsn
update-IsReached s (apply now lsn) = advance-reached s.target_checkpoint_lsn lsn
update-IsReached s (acknowledge now lsn) = advance-reached s.target_checkpoint_lsn lsn
update-IsReached s _ = tt

IsReached-Follows :
    (s t : PipelineRuntimeSnapshot) (u : Update) → Follows s t → IsReached s u → IsReached t u
IsReached-Follows s t (received lsn) f h = ≼-trans (some lsn) s.source_received_lsn _ h f.received
IsReached-Follows s t (transaction lsn commit_time) f h = (
  ≼-trans (some lsn) s.source_received_lsn _ h.0 f.received,
  ≼-trans (some lsn) s.source_current_lsn _ h.1 f.current,
)
IsReached-Follows s t (initialized lsn) f h =
    ≼-trans (some lsn) s.target_checkpoint_lsn _ h f.checkpoint
IsReached-Follows s t (apply now lsn) f h =
    ≼-trans (some lsn) s.target_checkpoint_lsn _ h f.checkpoint
IsReached-Follows s t (acknowledge now lsn) f h =
    ≼-trans (some lsn) s.target_checkpoint_lsn _ h f.checkpoint
IsReached-Follows s t _ f h = tt

-- Whatever is reported of a pipeline, in any order, and even if a report panics: the positions of the
-- source and of the target's checkpoint never go back nor get lost, they reach every position that was
-- reported, and the lag is the distance of the received position from the checkpoint, or 0 if the
-- checkpoint is ahead.
pub update_all-Follows :
    (us : List Update) (s : PipelineRuntimeSnapshot)
    → HasLag s
    → Follows s (update_all s us) × All (IsReached (update_all s us)) us
unfolding update_all
update_all-Follows [] s h = (still s s refl refl refl h, tt)
update_all-Follows (u ∷ us) s h =
    let a = update-Follows s u h in
    let (b, reached) = update_all-Follows us (update s u) a.lag in
    (
      record {
        received = ≼-trans s.source_received_lsn _ _ a.received b.received;
        current = ≼-trans s.source_current_lsn _ _ a.current b.current;
        checkpoint = ≼-trans s.target_checkpoint_lsn _ _ a.checkpoint b.checkpoint;
        lag = b.lag;
      },
      (IsReached-Follows (update s u) _ u b (update-IsReached s u), reached),
    )
