-- ===== src/Gc/Keys.antt =====
-- How the collector reads object keys (cmd/garbagecollector/gc.go), and the key that the proxy
-- gives a chunk (chunkObjectName of cmd/pmoxs3backuproxy/chunk_upload.go).
pub mod RoundTrip
use pmoxs3backuproxy.Prelude.{
  ℕ, zero, suc, ◌-◌, Bool, true, false, ◌&&◌, ◌||◌, not, Option, none, some, List, [], ◌∷◌, ◌++◌,
  ◌==◌, length, take, drop, Result, ok, err, if◌then◌else◌,
}
use pmoxs3backuproxy.Prelude.Hex.{decode_string}
use pmoxs3backuproxy.Prelude.Strings.{
  Bytes, codes, bytes_eq, has_prefix, trim_prefix, index_byte, split,
}
use pmoxs3backuproxy.Objects.{
  Error, outside_backups, invalid_backup_key, invalid_chunk_key, invalid_chunk_digest,
}

-- `slash <= 0`
prefix_up_to : Bytes → Bytes → Option ℕ → Result Error Bytes
prefix_up_to key rest none = err (invalid_backup_key key)
prefix_up_to key rest (some zero) = err (invalid_backup_key key)
prefix_up_to key rest (some (suc slash)) = ok (codes "backups/" ++ take (suc slash) rest)

-- snapshotPrefixForObject
unfoldable pub snapshot_prefix_for_object : Bytes → Result Error Bytes
unfolding prefix_up_to
snapshot_prefix_for_object key =
    let rest = trim_prefix key (codes "backups/") in
    if not (has_prefix key (codes "backups/"))
    then err (outside_backups key)
    else prefix_up_to key rest (index_byte rest b'/')

-- `err != nil || len(decoded) != 32`
unfoldable pub is_digest : Bytes → Bool
is_digest digest = (decode_string digest).1 && length (decode_string digest).0 == 32

digest_of_parts : Bytes → List Bytes → Result Error Bytes
digest_of_parts key (root ∷ a ∷ b ∷ c ∷ []) =
    if not (bytes_eq root (codes "chunks"))
      || not (length a == 2)
      || not (length b == 2)
      || not (length c == 60)
    then err (invalid_chunk_key key)
    else if is_digest (a ++ (b ++ c))
    then ok (a ++ (b ++ c))
    else err (invalid_chunk_digest key)
digest_of_parts key _ = err (invalid_chunk_key key)

-- chunkDigestFromKey
unfoldable pub chunk_digest_from_key : Bytes → Result Error Bytes
unfolding digest_of_parts
chunk_digest_from_key key = digest_of_parts key (split key b'/')

-- chunkObjectName
unfoldable pub chunk_object_name : Bytes → Result Error Bytes
chunk_object_name digest =
    if is_digest digest
    then ok (
        codes "chunks/"
        ++ (take 2 digest ++ (b'/' ∷ (take 2 (drop 2 digest) ++ (b'/' ∷ drop 4 digest)))))
    else err (invalid_chunk_digest digest)
