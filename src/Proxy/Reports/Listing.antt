-- ===== src/Proxy/Reports/Listing.antt =====
-- The cached listing of snapshots with its reports (listSnapshotsCached, applyOptionalSnapshotReports
-- and readUsageStats in cmd/pmoxs3backuproxy/main.go; ListSnapshots of
-- internal/s3pmoxcommon/s3pmoxcommon.go).
pub mod Fresh
use pmoxs3backuproxy.Prelude.{
  ℕ, Bool, true, false, Option, none, some, List, [], ◌∷◌, Result, ok, err, ◌>>=◌, if◌then◌else◌,
}
use pmoxs3backuproxy.Prelude.Int.{ℤ}
use pmoxs3backuproxy.Prelude.Maps.{Map, insert, value_or}
use pmoxs3backuproxy.Prelude.Strings.{Bytes, codes}
use pmoxs3backuproxy.Client.{Client}
use pmoxs3backuproxy.Gc.Stats.{UsageStats}
use pmoxs3backuproxy.Objects.{Error}
use pmoxs3backuproxy.Snapshots.{Snapshot, snapshots_from_objects}
use pmoxs3backuproxy.Proxy.Cache.{Entry, Answer, cached, fresh, failed, entry, get, is_fresh}
use pmoxs3backuproxy.Proxy.Invalidation.{Caches}
use pmoxs3backuproxy.Proxy.Reports.{Job, Lookups, fill_archive_sizes, fetched}
use pmoxs3backuproxy.Proxy.Reports.Modes.{Manifests, fill_snapshot_crypt_modes}
use pmoxs3backuproxy.Proxy.Sizes.{SnapshotSizeMode, size_logical, apply_snapshot_size_mode}

-- The settings of the process, the libraries, and how the workers of a listing take their jobs.
pub record Reporting (State : Type 0) : Type 0 where
  pub client : Client State
  pub decode_note : Bytes → Option Bytes
  pub unmarshal : Bytes → Option UsageStats
  pub report_encryption : Bool
  pub report_archive_size : Bool
  pub report_gc_stats : Bool
  pub snapshot_size_mode : SnapshotSizeMode
  pub lookups : State → Lookups
  pub manifests : State → Manifests
  pub size_order : List Snapshot → List (ℕ × Job)
  pub modes_order : List Snapshot → List ℕ
  pub snapshots_ttl : ℤ
  pub stats_ttl : ℤ

-- When the lookup of a listing begins and when it ends.
pub record Times : Type 0 where
  pub begins : ℤ
  pub ends : ℤ

-- The value of Get, where the zero value stands for none, or its error.
unfoldable pub answered : {T : Type 0} → T → Answer T → Result ℕ T
answered zero_value (cached value) = ok (value_or value zero_value)
answered zero_value (fresh value) = ok value
answered zero_value (failed e) = err e

unmarshalled : {State : Type 0} → Reporting State → Answer Bytes → Option UsageStats
unmarshalled reporting answer = elim (answered [] answer) [
  | err e ↦ none
  | ok raw ↦ reporting.unmarshal raw
]

module _ {State : Type 0} (reporting : Reporting State) (s : State) (datastore : Bytes)
    (times : Times) where
  -- ListSnapshots, without the corrupted ones
  unfoldable pub list_snapshots : Result Error (List Snapshot)
  list_snapshots =
      snapshots_from_objects reporting.decode_note
        (reporting.client.list_objects s (codes "backups/")) datastore false

  -- The cached lookup of the usage report, from its entry.
  unfoldable pub read_report : Entry Bytes → Entry Bytes × Answer Bytes
  read_report e =
      get reporting.stats_ttl times.begins
        (fetched (reporting.client.read_object s (codes "usage-stats.json"))) times.ends e

  -- readUsageStats
  unfoldable pub read_usage_stats : Caches → Caches × Option UsageStats
  unfolding unmarshalled
  read_usage_stats c = elim reporting.snapshot_size_mode [
    | size_logical ↦ (c, none)
    | _ ↦
        let (e, answer) = read_report (entry c.usage_reports datastore) in
        (
          record c { usage_reports = insert c.usage_reports datastore e },
          unmarshalled reporting answer,
        )
  ]

  fill_encryption : Caches × List Snapshot → Caches × List Snapshot
  fill_encryption (c, snapshots) =
      let (cache, filled) =
        fill_snapshot_crypt_modes (reporting.manifests s) (reporting.modes_order snapshots)
          (c.manifest_crypt_modes, snapshots) in
      if reporting.report_encryption
      then (record c { manifest_crypt_modes = cache }, filled)
      else (c, snapshots)

  fill_sizes : Caches × List Snapshot → Caches × List Snapshot
  fill_sizes (c, snapshots) =
      let (cache, filled) =
        fill_archive_sizes (reporting.lookups s) (reporting.size_order snapshots) c.archive_sizes
          snapshots in
      if reporting.report_archive_size
      then (record c { archive_sizes = cache }, filled)
      else (c, snapshots)

  apply_sizes : Caches × List Snapshot → Caches × List Snapshot
  apply_sizes (c, snapshots) =
      let (c', stats) = read_usage_stats c in
      if reporting.report_gc_stats
      then (c', apply_snapshot_size_mode reporting.snapshot_size_mode snapshots stats)
      else (c, snapshots)

  -- applyOptionalSnapshotReports
  unfoldable pub apply_optional_snapshot_reports : Caches × List Snapshot → Caches × List Snapshot
  unfolding fill_encryption fill_sizes apply_sizes
  apply_optional_snapshot_reports listing = apply_sizes (fill_sizes (fill_encryption listing))

  with_reports : Caches → Result Error (List Snapshot) → Caches × Result ℕ (List Snapshot)
  with_reports c (err e) = (c, err 0)
  with_reports c (ok snapshots) =
      let (c', reported) = apply_optional_snapshot_reports (c, snapshots) in (c', ok reported)

  -- The function that listSnapshotsCached hands to Get.
  unfoldable pub fetch_listing : Caches → Caches × Result ℕ (List Snapshot)
  unfolding with_reports
  fetch_listing c = with_reports c list_snapshots

  -- A listing that is fetched, on the caches that fetching it leaves.
  fetched_listing : Caches × Result ℕ (List Snapshot) → Caches × Answer (List Snapshot)
  fetched_listing (c, listing) =
      let (e, answer) =
        get reporting.snapshots_ttl times.begins listing times.ends
          (entry c.snapshot_lists datastore) in
      (record c { snapshot_lists = insert c.snapshot_lists datastore e }, answer)

  -- listSnapshotsCached: the listing is fetched only if the entry is not fresh.
  unfoldable pub list_snapshots_cached : Caches → Caches × Result ℕ (List Snapshot)
  unfolding fetched_listing
  list_snapshots_cached c =
      let e = entry c.snapshot_lists datastore in
      if is_fresh reporting.snapshots_ttl times.begins e
      then (c, ok (value_or e.value []))
      else (let (c', answer) = fetched_listing (fetch_listing c) in (c', answered [] answer))
