-- ===== src/Gc/Run.antt =====
-- One run of the collector, `main` of cmd/garbagecollector/main.go from the listings on: flags,
-- the lock and the logging are left out. Publishing an invalidation is counted.
pub mod FailClosed
use pmoxs3backuproxy.Prelude.{
  ℕ, suc, Bool, true, false, Option, none, some, List, [], ◌∷◌, ◌++◌, Result, ok, err,
  if◌then◌else◌,
}
use pmoxs3backuproxy.Prelude.Int.{ℤ}
use pmoxs3backuproxy.Prelude.Maps.{Map}
use pmoxs3backuproxy.Prelude.Strings.{Bytes, codes, split}
use pmoxs3backuproxy.Client.{Client}
use pmoxs3backuproxy.Gc.Loaders.{
  get_object_metadata, load_index_from_s3, refresh_expired_snapshot_protection,
}
use pmoxs3backuproxy.Gc.Plan.{GcPlan, build_gc_plan}
use pmoxs3backuproxy.Gc.Stats.{UsageStats, compute_usage_stats}
use pmoxs3backuproxy.Gc.Sweep.{background, SweepError, list_objects_fully, execute_gc_plan}
use pmoxs3backuproxy.Objects.{Error, ObjectInfo}
use pmoxs3backuproxy.Snapshots.{Snapshot, snapshots_from_objects}

-- How a run ends: a fatal error before or in the sweep, nothing to do, or done.
pub data Outcome : Type 0 where
  unsafe : Error → Outcome
  no_snapshots : Outcome
  marking_failed : Error → Outcome
  chunks_missing : Map (List Bytes) → Outcome
  sweep_failed : SweepError → Outcome
  finished : Outcome

-- `parts[:len(parts)-1]`, joined with slashes
unfoldable pub join_parents : List Bytes → Bytes
join_parents [] = []
join_parents (p ∷ []) = []
join_parents (p ∷ q ∷ []) = p
join_parents (p ∷ q ∷ r ∷ rest) = p ++ (b'/' ∷ join_parents (q ∷ r ∷ rest))

-- The key of the corruption marker beside an index.
unfoldable pub corrupted_key : Bytes → Bytes
corrupted_key name = join_parents (split name b'/') ++ codes "/corrupted"

-- The settings of a run, with the functions of packages that are not modelled.
pub record Settings : Type 0 where
  pub bucket : Bytes
  pub retention_days : ℕ
  pub grace : ℤ
  pub sha256 : Bytes → Bytes
  pub decode_note : Bytes → Option Bytes
  pub marshal : UsageStats → Bytes

-- The bucket beside the number of invalidations that were published.
pub record World (State : Type 0) : Type 0 where
  pub bucket : State
  pub invalidations : ℕ

module _ {State : Type 0} (client : Client State) where
  abbrev publish : World State → World State
  publish w = record w { invalidations = suc w.invalidations }

  -- The marker of one reference. An error is fatal, before the notification.
  mark_reference : World State → Bytes → World State × Option Error
  mark_reference w name =
      let (bucket, failed) = client.put_object w.bucket (corrupted_key name) (codes "CORRUPTED") in
      elim failed [
        | none ↦ (publish (record w { bucket = bucket }), none)
        | some e ↦ (record w { bucket = bucket }, some e)
      ]

  unfoldable pub mark_references : World State → List Bytes → World State × Option Error
  unfolding mark_reference
  mark_references w [] = (w, none)
  mark_references w (name ∷ names) =
      let (w', failed) = mark_reference w name in
      elim failed [ none ↦ mark_references w' names | some e ↦ (w', some e) ]

  -- The loop over the missing chunks.
  unfoldable pub mark_missing : World State → Map (List Bytes) → World State × Option Error
  mark_missing w [] = (w, none)
  mark_missing w ((digest, references) ∷ missing) =
      let (w', failed) = mark_references w references in
      elim failed [ none ↦ mark_missing w' missing | some e ↦ (w', some e) ]

  after_marking : Map (List Bytes) → World State × Option Error → World State × Outcome
  after_marking missing (w, none) = (publish w, chunks_missing missing)
  after_marking missing (w, some e) = (w, unsafe e)

  -- writeUsageStats: an error is only logged.
  write_usage_stats : Settings → ℤ → World State → GcPlan → World State
  write_usage_stats cfg now w plan =
      let stats = compute_usage_stats plan.known_chunks plan.chunk_sizes plan.archive_sizes now in
      record w {
        bucket = (client.put_object w.bucket (codes "usage-stats.json") (cfg.marshal stats)).0;
      }

  after_sweep : Settings → ℤ → GcPlan → World State × Option SweepError → World State × Outcome
  unfolding write_usage_stats
  after_sweep cfg now plan (w, some e) = (publish w, sweep_failed e)
  after_sweep cfg now plan (w, none) =
      (publish (write_usage_stats cfg now (publish w) plan), finished)

  -- With a plan: mark what is missing and stop, or sweep.
  carry_out : Settings → ℤ → World State → GcPlan → Map (List Bytes) → World State × Outcome
  unfolding after_marking after_sweep
  carry_out cfg now w plan (m ∷ missing) =
      after_marking (m ∷ missing) (mark_missing w (m ∷ missing))
  carry_out cfg now w plan [] =
      let w1 = publish w in
      let (bucket, failed) = execute_gc_plan client background w1.bucket plan in
      after_sweep cfg now plan (record w1 { bucket = bucket }, failed)

  planned : Settings → ℤ → World State → Result Error GcPlan → World State × Outcome
  unfolding carry_out
  planned cfg now w (err e) = (w, marking_failed e)
  planned cfg now w (ok plan) = carry_out cfg now w plan plan.missing_chunks

  -- The plan of a run, from the complete listings.
  unfoldable pub plan_of :
      Settings
      → ℤ
      → State
      → List Snapshot
      → List ObjectInfo
      → List ObjectInfo
      → List ObjectInfo
      → Result Error GcPlan
  plan_of cfg now s snapshots backups indexed chunks =
      build_gc_plan snapshots backups indexed chunks now cfg.retention_days cfg.grace
        (load_index_from_s3 client cfg.sha256 s) (get_object_metadata client s)

  refreshed :
      Settings
      → ℤ
      → World State
      → List ObjectInfo
      → List ObjectInfo
      → List ObjectInfo
      → Result Error (List Snapshot)
      → World State × Outcome
  unfolding planned
  refreshed cfg now w backups indexed chunks (err e) = (w, unsafe e)
  refreshed cfg now w backups indexed chunks (ok snapshots) =
      planned cfg now w (plan_of cfg now w.bucket snapshots backups indexed chunks)

  listed :
      Settings
      → ℤ
      → World State
      → List Snapshot
      → List ObjectInfo
      → Result Error (List ObjectInfo)
      → Result Error (List ObjectInfo)
      → World State × Outcome
  unfolding refreshed
  listed cfg now w [] backups indexed chunks = (w, no_snapshots)
  listed cfg now w (s ∷ snapshots) backups (err e) chunks = (w, unsafe e)
  listed cfg now w (s ∷ snapshots) backups (ok indexed) (err e) = (w, unsafe e)
  listed cfg now w (s ∷ snapshots) backups (ok indexed) (ok chunks) =
      refreshed cfg now w backups indexed chunks (
        refresh_expired_snapshot_protection client w.bucket (s ∷ snapshots) backups now
          cfg.retention_days)

  parsed_snapshots :
      Settings
      → ℤ
      → World State
      → List ObjectInfo
      → Result Error (List Snapshot)
      → World State × Outcome
  unfolding listed
  parsed_snapshots cfg now w backups (err e) = (w, unsafe e)
  parsed_snapshots cfg now w backups (ok snapshots) =
      listed cfg now w snapshots backups
        (list_objects_fully client background w.bucket (codes "indexed/"))
        (list_objects_fully client background w.bucket (codes "chunks/"))

  inventory : Settings → ℤ → World State → Result Error (List ObjectInfo) → World State × Outcome
  unfolding parsed_snapshots
  inventory cfg now w (err e) = (w, unsafe e)
  inventory cfg now w (ok backups) =
      parsed_snapshots cfg now w backups
        (snapshots_from_objects cfg.decode_note backups cfg.bucket true)

  -- A run at the time `now`, on a bucket that only this run changes.
  unfoldable pub collect_garbage : Settings → ℤ → World State → World State × Outcome
  unfolding inventory
  collect_garbage cfg now w =
      inventory cfg now w (list_objects_fully client background w.bucket (codes "backups/"))
