-- ===== src/Proxy/Reports/Modes.antt =====
-- The encryption modes of a listing (FillSnapshotCryptModes in cmd/pmoxs3backuproxy/sizes.go).
-- The workers take the snapshots in an order that is an argument.
use pmoxs3backuproxy.Prelude.{ℕ, zero, suc, Option, List, [], ◌∷◌, ◌++◌}
use pmoxs3backuproxy.Prelude.Int.{ℤ}
use pmoxs3backuproxy.Prelude.Maps.{Map, insert, value_or}
use pmoxs3backuproxy.Prelude.Strings.{Bytes, codes}
use pmoxs3backuproxy.Manifest.{
  Libraries, ManifestObject, read_snapshot_crypt_modes, apply_snapshot_crypt_modes,
}
use pmoxs3backuproxy.Snapshots.{Snapshot, s3_prefix}
use pmoxs3backuproxy.Proxy.Cache.{Entry, Answer, cached, fresh, failed, entry, get}
use pmoxs3backuproxy.Proxy.Reports.{fetched}

-- The key of a manifest in the cache.
unfoldable pub modes_key : Snapshot → Bytes
modes_key s = s.datastore ++ (b'/' ∷ (s3_prefix s ++ codes "/index.json.blob"))

-- The snapshot with the modes that a lookup returns, and as it was if the lookup fails.
unfoldable pub apply_found : Snapshot → Answer (Map Bytes) → Snapshot
apply_found s (cached modes) = apply_snapshot_crypt_modes s (value_or modes [])
apply_found s (fresh modes) = apply_snapshot_crypt_modes s modes
apply_found s (failed e) = s

-- The manifests by datastore, the lifetime of the cache, and for each cache key when its lookup
-- begins and when its fetch ends.
pub record Manifests : Type 0 where
  pub libraries : Libraries
  pub get_object : Bytes → Bytes → Option ManifestObject
  pub ttl : ℤ
  pub begins : Bytes → ℤ
  pub ends : Bytes → ℤ

abbrev pub Filling : Type 0
Filling = Map (Entry (Map Bytes)) × List Snapshot

module _ (manifests : Manifests) where
  -- The lookup of one snapshot on the entry of its key.
  unfoldable pub look_up_modes :
      Snapshot → Entry (Map Bytes) → Entry (Map Bytes) × Answer (Map Bytes)
  look_up_modes s e =
      get manifests.ttl (manifests.begins (modes_key s))
        (fetched
          (read_snapshot_crypt_modes manifests.libraries (manifests.get_object s.datastore) s))
        (manifests.ends (modes_key s)) e

  -- What one worker does with the snapshot at a place.
  unfoldable pub fill_modes : ℕ → Filling → Filling
  fill_modes i (cache, []) = (cache, [])
  fill_modes zero (cache, s ∷ snapshots) =
      let (e, answer) = look_up_modes s (entry cache (modes_key s)) in
      (insert cache (modes_key s) e, apply_found s answer ∷ snapshots)
  fill_modes (suc i) (cache, s ∷ snapshots) =
      let (cache', filled) = fill_modes i (cache, snapshots) in (cache', s ∷ filled)

  -- FillSnapshotCryptModes, on the places in the order in which the workers take them.
  unfoldable pub fill_snapshot_crypt_modes : List ℕ → Filling → Filling
  fill_snapshot_crypt_modes [] filling = filling
  fill_snapshot_crypt_modes (i ∷ order) filling =
      fill_snapshot_crypt_modes order (fill_modes i filling)
