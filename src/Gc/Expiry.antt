-- ===== src/Gc/Expiry.antt =====
-- Retention and grace: snapshotExpired and hoursDuration of cmd/garbagecollector/gc.go,
-- withinGracePeriod of main.go. A time is its nanoseconds since 1970.
pub mod Bounds
use pmoxs3backuproxy.Prelude.{
  ℕ, ◌+◌, ◌-◌, ◌*◌, ◌/◌, ◌^◌, Bool, true, false, ◌||◌, Result, ok, err, ltb, if◌then◌else◌,
}
use pmoxs3backuproxy.Prelude.Int.{ℤ, pos, negsuc, ltb_ℤ, leb_ℤ, ◌-ℤ◌}
use pmoxs3backuproxy.Prelude.Words.{two64}
use pmoxs3backuproxy.Objects.{Error, retention_overflow, grace_overflow}
use pmoxs3backuproxy.Snapshots.{Snapshot}

abbrev pub second : ℕ
second = 10 ^ 9

abbrev pub hour : ℕ
hour = 3600 * second

-- now.Unix(): whole seconds, rounded down
unfoldable pub unix : ℤ → ℤ
unix (pos t) = pos (t / second)
unix (negsuc t) = negsuc (t / second)

-- hoursDuration
unfoldable pub hours_duration : ℕ → Result Error ℤ
hours_duration hours =
    if ltb ((2 ^ 63 - 1) / hour) hours then err (grace_overflow hours) else ok (pos (hours * hour))

expired_at : Snapshot → ℤ → ℕ → Bool
expired_at snapshot (negsuc t) retention_seconds = false
expired_at snapshot (pos t) retention_seconds =
    if ltb t retention_seconds then false else ltb snapshot.backup_time (t - retention_seconds)

-- snapshotExpired
unfoldable pub snapshot_expired : Snapshot → ℤ → ℕ → Result Error Bool
unfolding expired_at unix
snapshot_expired snapshot now retention_days =
    if ltb ((two64 - 1) / 86400) retention_days
    then err (retention_overflow retention_days)
    else ok (expired_at snapshot (unix now) (retention_days * 86400))

-- withinGracePeriod
unfoldable pub within_grace_period : ℤ → ℤ → ℤ → Bool
within_grace_period last_modified now grace =
    if leb_ℤ grace (pos 0) then false else ltb_ℤ (now -ℤ grace) last_modified
