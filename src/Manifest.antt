-- ===== src/Manifest.antt =====
-- The encryption modes of archives, read from the manifest of a backup
-- (internal/s3pmoxcommon/manifest.go). CRC-32, zstd and JSON are libraries: each is a parameter.
--   blob: magic (8 bytes), CRC-32 of the rest (4 bytes, little-endian), the rest
pub mod Modes
use pmoxs3backuproxy.Prelude.{
  ℕ, ◌+◌, ◌*◌, Bool, ◌||◌, Option, none, some, List, [], ◌∷◌, ◌++◌, map, ◌==◌, ltb, length, take,
  drop, Result, ok, err, ◌>>=◌, ◌>>◌, guard, not, if◌then◌else◌, for_each,
}
use pmoxs3backuproxy.Prelude.Maps.{Map, lookup, insert}
use pmoxs3backuproxy.Prelude.Strings.{Bytes, codes, bytes_eq}
use pmoxs3backuproxy.Prelude.Words.{uint64_of}
use pmoxs3backuproxy.Index.{slice}
use pmoxs3backuproxy.Snapshots.{Snapshot, SnapshotFile, s3_prefix}

pub data ManifestError : Type 0 where
  too_small crc_mismatch unsupported_magic too_large not_json : ManifestError
  open_failed decompress_failed : ManifestError
  get_failed read_failed close_failed : ManifestError
  unsupported_mode : Bytes → ManifestError

pub record ManifestFile : Type 0 where
  pub filename : Bytes
  pub crypt_mode : Bytes

unfoldable pub uncompressed_blob_magic : Bytes
uncompressed_blob_magic = 66 ∷ 171 ∷ 56 ∷ 7 ∷ 190 ∷ 131 ∷ 112 ∷ 161 ∷ []

unfoldable pub compressed_blob_magic : Bytes
compressed_blob_magic = 49 ∷ 185 ∷ 88 ∷ 66 ∷ 111 ∷ 182 ∷ 163 ∷ 127 ∷ []

unfoldable pub max_manifest_size : ℕ
max_manifest_size = 128 * 1024 * 1024

-- What the libraries do: the checksum of bytes; opening a zstd stream and reading at most so many
-- bytes of it; the file entries of a JSON manifest.
pub record Libraries : Type 0 where
  pub checksum_ieee : Bytes → ℕ
  pub decompress : Bytes → ℕ → Result ManifestError Bytes
  pub unmarshal : Bytes → Option (List ManifestFile)

-- The switch on the crypt mode.
unfoldable pub is_supported : Bytes → Bool
is_supported mode =
    bytes_eq mode (codes "none")
    || bytes_eq mode (codes "sign-only")
    || bytes_eq mode (codes "encrypt")

-- A manifest without a mode implies no encryption.
unfoldable pub mode_of : ManifestFile → Bytes
mode_of file = if bytes_eq file.crypt_mode [] then codes "none" else file.crypt_mode

-- One round of the loop over the files of a manifest.
unfoldable pub add_mode : Map Bytes → ManifestFile → Result ManifestError (Map Bytes)
add_mode modes file =
    if is_supported (mode_of file)
    then ok (insert modes file.filename (mode_of file))
    else err (unsupported_mode file.filename)

-- ApplySnapshotCryptModes, on one file
unfoldable pub apply_mode : Map Bytes → SnapshotFile → SnapshotFile
apply_mode modes file = elim (lookup modes file.filename) [
  | none ↦ file
  | some mode ↦ record file { crypt_mode = mode }
]

-- ApplySnapshotCryptModes
unfoldable pub apply_snapshot_crypt_modes : Snapshot → Map Bytes → Snapshot
apply_snapshot_crypt_modes snapshot modes = record snapshot {
  files = map (apply_mode modes) snapshot.files;
}

-- The object of a manifest, read up to a limit and closed.
pub record ManifestObject : Type 0 where
  pub content : Bytes
  pub read_fails : Bool
  pub close_fails : Bool

module _ (libraries : Libraries) where
  unfoldable pub decompressed : Bytes → Result ManifestError Bytes
  decompressed payload = do
    decoded ← libraries.decompress payload (max_manifest_size + 1)
    guard (not (ltb max_manifest_size (length decoded))) too_large
    ok decoded

  unfoldable pub decoded_payload : Bytes → Bytes → Result ManifestError Bytes
  unfolding decompressed
  decoded_payload magic payload =
      if bytes_eq magic uncompressed_blob_magic
      then ok payload
      else if bytes_eq magic compressed_blob_magic
      then decompressed payload
      else err unsupported_magic

  -- decodeManifestBlob
  unfoldable pub decode_manifest_blob : Bytes → Result ManifestError Bytes
  unfolding decoded_payload
  decode_manifest_blob raw = do
    guard (not (ltb (length raw) 12)) too_small
    guard (libraries.checksum_ieee (drop 12 raw) == uint64_of (slice raw 8 12)) crc_mismatch
    decoded_payload (take 8 raw) (drop 12 raw)

  unfoldable pub modes_of : Option (List ManifestFile) → Result ManifestError (Map Bytes)
  modes_of none = err not_json
  modes_of (some files) = for_each add_mode [] files

  -- ParseManifestCryptModes
  unfoldable pub parse_manifest_crypt_modes : Bytes → Result ManifestError (Map Bytes)
  unfolding modes_of
  parse_manifest_crypt_modes raw = do
    decoded ← decode_manifest_blob raw
    modes_of (libraries.unmarshal decoded)

  -- applyManifestCryptModes
  unfoldable pub apply_manifest_crypt_modes : Snapshot → Bytes → Result ManifestError Snapshot
  apply_manifest_crypt_modes snapshot raw = do
    modes ← parse_manifest_crypt_modes raw
    ok (apply_snapshot_crypt_modes snapshot modes)

  read_manifest : ManifestObject → Result ManifestError (Map Bytes)
  read_manifest object = do
    let raw = take (max_manifest_size + 13) object.content
    guard (not object.read_fails) read_failed
    guard (not object.close_fails) close_failed
    guard (not (ltb (max_manifest_size + 12) (length raw))) too_large
    parse_manifest_crypt_modes raw

  -- ReadSnapshotCryptModes, over what GetObject returns for a key
  unfoldable pub read_snapshot_crypt_modes :
      (Bytes → Option ManifestObject) → Snapshot → Result ManifestError (Map Bytes)
  unfolding read_manifest
  read_snapshot_crypt_modes get snapshot =
      elim (get (s3_prefix snapshot ++ codes "/index.json.blob")) [
        | none ↦ err get_failed
        | some object ↦ read_manifest object
      ]
