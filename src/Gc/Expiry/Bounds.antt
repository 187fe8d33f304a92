-- ===== src/Gc/Expiry/Bounds.antt =====
-- When a snapshot counts as expired, and that nothing overflows on the way.
use pmoxs3backuproxy.Prelude.{ℕ, ◌+◌, ◌*◌, ◌/◌, ◌^◌, ◌<◌, true, ◌≡◌, ◌↔◌, arith, ok}
use pmoxs3backuproxy.Prelude.Int.{ℤ, pos, negsuc, ◌≤ℤ◌, pos_part}
use pmoxs3backuproxy.Prelude.Words.{two64}
use pmoxs3backuproxy.Gc.Expiry.{second, hour, hours_duration, snapshot_expired}
use pmoxs3backuproxy.Snapshots.{Snapshot}

-- A snapshot has expired exactly if its time and the retention together lie before the present
-- second; the retention in seconds fits a uint64, and the present is not before 1970.
pub snapshot_expired_iff :
    (s : Snapshot) (now : ℤ) (days : ℕ)
    → (snapshot_expired s now days ≡ ok true) ↔ (
        (days * 86400 < two64)
        × (pos 0 ≤ℤ now)
        × (s.backup_time + days * 86400 < pos_part now / second))
unfolding snapshot_expired
snapshot_expired_iff s (pos n) days = (λ h. ground arith, λ h. ground arith)
snapshot_expired_iff s (negsuc n) days = (λ h. ground arith, λ h. absurd (ground arith))

-- A grace period that is accepted is that number of hours in nanoseconds, and fits an int64.
pub hours_duration_bounds :
    (hours : ℕ) (d : ℤ)
    → hours_duration hours ≡ ok d
    → (d ≡ pos (hours * hour)) × (hours * hour < 2 ^ 63)
unfolding hours_duration
hours_duration_bounds hours d h = ground arith
