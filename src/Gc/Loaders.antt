-- ===== src/Gc/Loaders.antt =====
-- How the collector reads checksums, indexes and protection tags: checksumFromMetadata and
-- getObjectMetadata of cmd/garbagecollector/main.go, loadIndexFromS3 and
-- refreshExpiredSnapshotProtection of gc.go.
use pmoxs3backuproxy.Prelude.{
  ℕ, Bool, true, ◌||◌, not, List, [], ◌∷◌, ◌++◌, Result, ok, err, ◌>>=◌, if◌then◌else◌, for_each,
}
use pmoxs3backuproxy.Prelude.Int.{ℤ}
use pmoxs3backuproxy.Prelude.Maps.{Map, lookup, insert, value_or, is_set}
use pmoxs3backuproxy.Prelude.Strings.{Bytes, codes, bytes_eq, has_suffix}
use pmoxs3backuproxy.Client.{Client}
use pmoxs3backuproxy.Gc.Expiry.{snapshot_expired}
use pmoxs3backuproxy.Gc.Keys.{snapshot_prefix_for_object}
use pmoxs3backuproxy.Index.{ParsedIndex, parse_index}
use pmoxs3backuproxy.Objects.{Error, no_checksum, ObjectInfo}
use pmoxs3backuproxy.Snapshots.{Snapshot, s3_prefix}

-- The first text if it is not empty, else the second.
first_nonempty : Bytes → Bytes → Bytes
first_nonempty [] other = other
first_nonempty (c ∷ s) other = c ∷ s

-- checksumFromMetadata; the empty text if there is none.
unfoldable pub checksum_from_metadata : ObjectInfo → Bytes
unfolding first_nonempty
checksum_from_metadata info =
    first_nonempty (value_or (lookup info.user_metadata (codes "X-Amz-Meta-Csum")) [])
      (value_or (lookup info.user_metadata (codes "Csum")) [])

-- A checksum that must not be empty.
nonempty_checksum : Bytes → Bytes → Result Error Bytes
nonempty_checksum key [] = err (no_checksum key)
nonempty_checksum key (c ∷ s) = ok (c ∷ s)

module _ {State : Type 0} (client : Client State) where
  -- The listing's checksum, or else what the other source says.
  checksum_or : Bytes → Result Error ObjectInfo → Bytes → Result Error Bytes
  checksum_or key source [] = do info ← source; nonempty_checksum key (checksum_from_metadata info)
  checksum_or key source (c ∷ s) = ok (c ∷ s)

  -- getObjectMetadata; the count of fallbacks, which is only logged, is left out.
  unfoldable pub get_object_metadata : State → ObjectInfo → Result Error Bytes
  unfolding checksum_or nonempty_checksum
  get_object_metadata s object =
      checksum_or object.key (client.stat_object s object.key) (checksum_from_metadata object)

  -- loadIndexFromS3
  unfoldable pub load_index_from_s3 :
      (Bytes → Bytes) → State → ObjectInfo → Result Error ParsedIndex
  unfolding checksum_or nonempty_checksum
  load_index_from_s3 sha256 s object = do
    contents ← client.read_object s object.key
    checksum ←
        checksum_or object.key (client.stat_reader s object.key) (checksum_from_metadata object)
    parse_index sha256 object.key contents checksum

  -- The loop that collects the prefixes with a manifest.
  unfoldable pub note_manifest : Map Bool → ObjectInfo → Result Error (Map Bool)
  note_manifest manifests object =
      if has_suffix object.key (codes "/index.json.blob")
      then (do prefix ← snapshot_prefix_for_object object.key; ok (insert manifests prefix true))
      else ok manifests

  -- One round of the loop over the snapshots.
  unfoldable pub refresh_protection :
      State → ℤ → ℕ → Map Bool → List Snapshot → Snapshot → Result Error (List Snapshot)
  refresh_protection s now retention_days manifests done snapshot = do
    expired ← snapshot_expired snapshot now retention_days
    if not expired || not (is_set manifests (s3_prefix snapshot))
        then ok (done ++ snapshot ∷ [])
        else do
          tags ← client.get_object_tagging s (s3_prefix snapshot ++ codes "/index.json.blob")
          ok (
              done
              ++ (record snapshot {
                protected = bytes_eq (value_or (lookup tags (codes "protected")) []) (codes "true");
              })
                ∷ [])

  -- refreshExpiredSnapshotProtection, which writes into the slice of snapshots
  unfoldable pub refresh_expired_snapshot_protection :
      State → List Snapshot → List ObjectInfo → ℤ → ℕ → Result Error (List Snapshot)
  refresh_expired_snapshot_protection s snapshots backup_objects now retention_days = do
    manifests ← for_each note_manifest [] backup_objects
    for_each (refresh_protection s now retention_days manifests) [] snapshots
