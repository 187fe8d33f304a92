-- ===== src/Proxy/Handlers/Files.antt =====
-- The files of a snapshot (ServeHTTP in cmd/pmoxs3backuproxy/main.go; GetFiles of
-- internal/s3pmoxcommon/s3pmoxcommon.go).
pub mod Listed
use pmoxs3backuproxy.Prelude.{
  ℕ, Bool, true, false, Option, none, some, List, [], ◌∷◌, ◌++◌, if◌then◌else◌,
}
use pmoxs3backuproxy.Prelude.Maps.{Map}
use pmoxs3backuproxy.Prelude.Strings.{Bytes, codes, split}
use pmoxs3backuproxy.Prelude.Words.{to_uint64}
use pmoxs3backuproxy.Objects.{ObjectInfo}
use pmoxs3backuproxy.Client.{Client}
use pmoxs3backuproxy.Snapshots.{Snapshot, SnapshotFile, s3_prefix}
use pmoxs3backuproxy.Proxy.Cache.{Entry}
use pmoxs3backuproxy.Proxy.Handlers.{Reply, reply, panicked}
use pmoxs3backuproxy.Proxy.Reports.Modes.{Manifests, fill_snapshot_crypt_modes}

-- `path[2]`, where a path that is too short panics.
third : List Bytes → Option Bytes
third (a ∷ b ∷ c ∷ rest) = some c
third _ = none

file_of : ObjectInfo → Option Bytes → Option SnapshotFile
file_of object none = none
file_of object (some name) =
    some (record { filename = name; crypt_mode = codes "none"; size = to_uint64 object.size })

-- The file of an object.
unfoldable pub object_file : ObjectInfo → Option SnapshotFile
unfolding third file_of
object_file object = file_of object (third (split object.key b'/'))

-- The loop of GetFiles over the listing, which panics at `none`. It does not look at errors.
unfoldable pub add_files : List SnapshotFile → List ObjectInfo → Option (List SnapshotFile)
add_files files [] = some files
add_files files (object ∷ listing) = elim (object_file object) [
  | none ↦ none
  | some file ↦ add_files (files ++ (file ∷ [])) listing
]

-- (*Snapshot).GetFiles; the prefix that it lists does not end with a slash.
unfoldable pub get_files :
    {State : Type 0} → Client State → State → Snapshot → Option (List SnapshotFile)
get_files client s snapshot = add_files snapshot.files (client.list_objects s (s3_prefix snapshot))

first_files : List Snapshot → List SnapshotFile
first_files [] = []
first_files (s ∷ snapshots) = s.files

-- GET files, on the cached modes
unfoldable pub list_files :
    {State : Type 0}
    → Client State
    → Manifests
    → Bool
    → State
    → Snapshot
    → Map (Entry (Map Bytes))
    → Map (Entry (Map Bytes)) × Reply (List SnapshotFile)
unfolding first_files
list_files client manifests report_encryption s snapshot cache =
    elim (get_files client s snapshot) [
      | none ↦ (cache, panicked)
      | some files ↦
          let (cache', filled) =
            fill_snapshot_crypt_modes manifests (0 ∷ [])
              (cache, record snapshot { files = files } ∷ []) in
          if report_encryption then (cache', reply (first_files filled)) else (cache, reply files)
    ]
