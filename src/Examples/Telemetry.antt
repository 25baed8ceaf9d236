-- ===== src/Examples/Telemetry.antt =====
-- Instances of the theorems on crates/engine/src/telemetry.rs.
use etl_server_cloudberry.Prelude.{refl, pos, All, List, [], ◌∷◌, text}
use etl_server_cloudberry.Engine.Telemetry.{new_snapshot, byte_lag}
use etl_server_cloudberry.Engine.Telemetry.Positions.{
  Update, started, received, initialized, transaction, apply, failed, Follows, HasLag, IsReached,
  update_all, update_all-Follows,
}

-- A start, two positions of which the second is behind, and a failure.
abbrev reports : List Update
reports =
    started (pos 5)
    ∷ initialized 100
    ∷ received 300
    ∷ transaction 200 (pos 6)
    ∷ apply (pos 7) 200
    ∷ failed (pos 8) (text "lost")
    ∷ []

new_snapshot-HasLag : HasLag (new_snapshot 7)
unfolding new_snapshot byte_lag
new_snapshot-HasLag = refl

update_all-Follows_example :
    Follows (new_snapshot 7) (update_all (new_snapshot 7) reports)
    × All (IsReached (update_all (new_snapshot 7) reports)) reports
update_all-Follows_example = update_all-Follows reports (new_snapshot 7) new_snapshot-HasLag
