-- ===== src/Proxy/Sizes.antt =====
-- The figures that the proxy reports (cmd/pmoxs3backuproxy/sizes.go): the size of a snapshot, and the
-- usage of a datastore.
pub mod Walk
use pmoxs3backuproxy.Prelude.{
  ℕ, Bool, true, false, ◌&&◌, Option, none, some, List, [], ◌∷◌, ltb, length, drop, map, Result, ok,
  err, ◌>>=◌, if◌then◌else◌,
}
use pmoxs3backuproxy.Prelude.Maps.{Map, lookup, insert}
use pmoxs3backuproxy.Prelude.Strings.{Bytes, codes, bytes_eq, has_prefix, cut}
use pmoxs3backuproxy.Prelude.Words.{add64, to_uint64}
use pmoxs3backuproxy.Objects.{Error, ObjectInfo}
use pmoxs3backuproxy.Snapshots.{Snapshot, s3_prefix}
use pmoxs3backuproxy.Gc.Stats.{SnapshotUsage, UsageStats}

pub data SnapshotSizeMode : Type 0 where
  size_logical size_referenced size_exclusive : SnapshotSizeMode

-- ValidSnapshotSizeMode, with the mode that a valid name means
unfoldable pub snapshot_size_mode : Bytes → Option SnapshotSizeMode
snapshot_size_mode mode =
    if bytes_eq mode (codes "logical")
    then some size_logical
    else if bytes_eq mode (codes "referenced")
    then some size_referenced
    else if bytes_eq mode (codes "exclusive")
    then some size_exclusive
    else none

-- `byPrefix`, where a later entry replaces an earlier one
unfoldable pub usage_by_prefix : Map SnapshotUsage → List SnapshotUsage → Map SnapshotUsage
usage_by_prefix m [] = m
usage_by_prefix m (u ∷ us) = usage_by_prefix (insert m u.snapshot u) us

-- The size of a snapshot of which the report has the usage.
unfoldable pub reported_size : SnapshotSizeMode → Snapshot → SnapshotUsage → ℕ
reported_size size_logical s u = s.size
reported_size size_referenced s u = u.referenced_bytes
reported_size size_exclusive s u = u.exclusive_bytes

sized_by : SnapshotSizeMode → Map SnapshotUsage → Snapshot → Snapshot
sized_by mode by_prefix s = elim (lookup by_prefix (s3_prefix s)) [
  | none ↦ s
  | some u ↦ record s { size = reported_size mode s u }
]

-- ApplySnapshotSizeMode
unfoldable pub apply_snapshot_size_mode :
    SnapshotSizeMode → List Snapshot → Option UsageStats → List Snapshot
unfolding sized_by
apply_snapshot_size_mode size_logical snapshots stats = snapshots
apply_snapshot_size_mode mode snapshots none = snapshots
apply_snapshot_size_mode mode snapshots (some stats) =
    map (sized_by mode (usage_by_prefix [] stats.snapshots)) snapshots

pub record DataStoreUsage : Type 0 where
  pub bytes : ℕ
  pub chunk_bytes : ℕ
  pub objects : ℕ
  pub snapshots : ℕ

-- The figures of a walk beside `snapshotPrefixes`.
pub record Walking : Type 0 where
  pub usage : DataStoreUsage
  pub prefixes : Map Bool

abbrev pub nothing_walked : Walking
nothing_walked = record {
  usage = record { bytes = 0; chunk_bytes = 0; objects = 0; snapshots = 0 };
  prefixes = [];
}

-- The prefix of the key of a backup object joins the set, if it ends.
note_prefix : Map Bool → Bytes × Option Bytes → Map Bool
note_prefix prefixes (prefix, none) = prefixes
note_prefix prefixes (prefix, some file) = insert prefixes prefix true

is_chunk_key : Bytes → Bool
is_chunk_key key = ltb 7 (length key) && has_prefix key (codes "chunks/")

is_backup_key : Bytes → Bool
is_backup_key key = ltb 8 (length key) && has_prefix key (codes "backups/")

-- One object of the listing.
unfoldable pub walk_object : Walking → ObjectInfo → Walking
unfolding note_prefix is_chunk_key is_backup_key
walk_object w object =
    let size = to_uint64 object.size in
    record {
      usage = record w.usage {
        objects = add64 w.usage.objects 1;
        bytes = add64 w.usage.bytes size;
        chunk_bytes =
            if is_chunk_key object.key then add64 w.usage.chunk_bytes size else w.usage.chunk_bytes;
      };
      prefixes =
          if is_chunk_key object.key
          then w.prefixes
          else if is_backup_key object.key
          then note_prefix w.prefixes (cut (drop 8 object.key) b'/')
          else w.prefixes;
    }

-- The loop over the listing.
unfoldable pub walk_objects : Walking → List ObjectInfo → Result Error Walking
walk_objects w [] = ok w
walk_objects w (object ∷ objects) = elim object.error [
  | some e ↦ err e
  | none ↦ walk_objects (walk_object w object) objects
]

-- walkDataStoreUsage, on what listing the datastore delivers
unfoldable pub walk_datastore_usage : List ObjectInfo → Result Error DataStoreUsage
walk_datastore_usage listing = do
  w ← walk_objects nothing_walked listing
  ok (record w.usage { snapshots = length w.prefixes })
