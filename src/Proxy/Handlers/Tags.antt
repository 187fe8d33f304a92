-- ===== src/Proxy/Handlers/Tags.antt =====
-- Notes and protection of a snapshot: the handlers that read and write the tags of its manifest
-- (cmd/pmoxs3backuproxy/main.go; ReadTags of internal/s3pmoxcommon/s3pmoxcommon.go).
pub mod Toggle
use pmoxs3backuproxy.Prelude.{
  ℕ, Bool, true, false, Option, none, some, [], ◌++◌, Result, ok, err, if◌then◌else◌,
}
use pmoxs3backuproxy.Prelude.Maps.{Map, lookup, insert}
use pmoxs3backuproxy.Prelude.Strings.{Bytes, codes, bytes_eq}
use pmoxs3backuproxy.Objects.{Error}
use pmoxs3backuproxy.Snapshots.{Snapshot, s3_prefix}
use pmoxs3backuproxy.Proxy.Handlers.{Reply, reply, refused, panicked}
use pmoxs3backuproxy.Proxy.Invalidation.{Caches, publish_datastore_cache_invalidation}

-- The tags of objects: what the client and its tags package do. Tags that the package refuses are
-- `none`.
pub record Tagging (State : Type 0) : Type 0 where
  pub get_object_tagging : State → Bytes → Result Error (Map Bytes)
  pub new_tags : Map Bytes → Option (Map Bytes)
  pub put_object_tagging : State → Bytes → Option (Map Bytes) → State × Option Error

-- The object that carries the tags of a snapshot.
unfoldable pub tagged_object : Snapshot → Bytes
tagged_object snapshot = s3_prefix snapshot ++ codes "/index.json.blob"

unfoldable pub tag_note : Bytes
tag_note = codes "note"

unfoldable pub tag_protected : Bytes
tag_protected = codes "protected"

-- GET protected, on the tags
unfoldable pub is_protected : Map Bytes → Bool
is_protected tags = elim (lookup tags tag_protected) [
  | none ↦ false
  | some value ↦ bytes_eq value (codes "true")
]

-- PUT protected, on the tags
unfoldable pub toggle : Map Bytes → Map Bytes
unfolding is_protected
toggle tags = insert tags tag_protected (if is_protected tags then codes "false" else codes "true")

module _ {State : Type 0} (tagging : Tagging State) where
  -- (*Snapshot).ReadTags
  unfoldable pub read_tags : State → Snapshot → Result Error (Map Bytes)
  read_tags s snapshot = tagging.get_object_tagging s (tagged_object snapshot)

  unfoldable pub write_tags : State → Snapshot → Map Bytes → State × Option Error
  write_tags s snapshot tags =
      tagging.put_object_tagging s (tagged_object snapshot) (tagging.new_tags tags)

  -- GET notes. `decode` is base64 without padding; its error is dropped.
  unfoldable pub get_notes : (Bytes → Bytes) → State → Snapshot → Reply Bytes
  get_notes decode s snapshot = elim (read_tags s snapshot) [
    | err e ↦ refused 500
    | ok tags ↦ elim (lookup tags tag_note) [ none ↦ reply [] | some value ↦ reply (decode value) ]
  ]

  -- PUT notes. The error of ReadTags is dropped, and the write to its nil map panics. `published`
  -- is what publishing a token returns.
  unfoldable pub put_notes :
      (Bytes → Bytes)
      → Result ℕ Bytes
      → State
      → Caches
      → Snapshot
      → Bytes
      → State × Caches × Reply (Unit {0})
  put_notes encode published s caches snapshot note = elim (read_tags s snapshot) [
    | err e ↦ (s, caches, panicked)
    | ok tags ↦
        let (s', failure) = write_tags s snapshot (insert tags tag_note (encode note)) in
        elim failure [
          | some e ↦ (s', caches, refused 500)
          | none ↦ (
            s',
            publish_datastore_cache_invalidation snapshot.datastore published caches,
            reply tt,
          )
        ]
  ]

  -- GET protected
  unfoldable pub get_protected : State → Snapshot → Reply Bool
  get_protected s snapshot = elim (read_tags s snapshot) [
    | err e ↦ refused 500
    | ok tags ↦ reply (is_protected tags)
  ]

  -- PUT protected, which answers with the snapshot whether or not its tags could be written.
  unfoldable pub put_protected :
      Result ℕ Bytes → State → Caches → Snapshot → State × Caches × Reply Snapshot
  put_protected published s caches snapshot = elim (read_tags s snapshot) [
    | err e ↦ (s, caches, refused 500)
    | ok tags ↦
        let (s', failure) = write_tags s snapshot (toggle tags) in
        elim failure [
          | some e ↦ (s', caches, reply snapshot)
          | none ↦ (
            s',
            publish_datastore_cache_invalidation snapshot.datastore published caches,
            reply snapshot,
          )
        ]
  ]
