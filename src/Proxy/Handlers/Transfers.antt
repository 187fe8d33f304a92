-- ===== src/Proxy/Handlers/Transfers.antt =====
-- The handlers that pass objects on, up to the store or down from it (ServeHTTP in
-- cmd/pmoxs3backuproxy/main.go).
use pmoxs3backuproxy.Prelude.{
  ℕ, Bool, true, false, Option, none, some, List, [], ◌∷◌, ◌++◌, length, Result, ok, err,
  if◌then◌else◌, ◌≡◌, refl, arith, Option-cases, inl, inr,
}
use pmoxs3backuproxy.Prelude.Int.{ℤ, pos}
use pmoxs3backuproxy.Prelude.Maps.{Map}
use pmoxs3backuproxy.Prelude.Strings.{Bytes, codes, bytes_eq}
use pmoxs3backuproxy.Objects.{Error}
use pmoxs3backuproxy.Gc.Keys.{chunk_object_name}
use pmoxs3backuproxy.Snapshots.{Snapshot, SnapshotFile}
use pmoxs3backuproxy.Proxy.Handlers.{Reply, reply, refused}
use pmoxs3backuproxy.Proxy.Handlers.Indexes.{archive_name, load_known_sizes}
use pmoxs3backuproxy.Proxy.Handlers.Store.{StorageClassPolicy, ObjectStore, ReadsBack, put_options}
use pmoxs3backuproxy.Proxy.Invalidation.{Caches, publish_datastore_cache_invalidation}

-- GET previous_backup_time, on what GetLatestSnapshot returns.
unfoldable pub previous_backup_time : Result Error (Option Snapshot) → Reply ℕ
previous_backup_time (err e) = refused 500
previous_backup_time (ok none) = refused 404
previous_backup_time (ok (some most_recent)) = reply most_recent.backup_time

module _ {State : Type 0} (store : ObjectStore State) where
  -- The blob handler. `size` is the announced size, 0 if it is no number.
  unfoldable pub upload_blob :
      StorageClassPolicy → Snapshot → State → Bytes → ℤ → Bytes → State × Reply (Unit {0})
  upload_blob classes snapshot s name size body =
      let (s', failure) =
        store.put_object s (archive_name snapshot name) body size
          (put_options classes.backups []) in
      elim failure [ some e ↦ (s', refused 500) | none ↦ (s', reply tt) ]

  -- POST upload-backup-log; `published` is what publishing a token returns.
  unfoldable pub upload_backup_log :
      StorageClassPolicy
      → Snapshot
      → Bytes
      → Result ℕ Bytes
      → State
      → Caches
      → ℤ
      → Bytes
      → State × Caches × Reply (Unit {0})
  upload_backup_log classes snapshot datastore published s caches size body =
      let (s', failure) =
        store.put_object s (archive_name snapshot (codes "client.log.blob")) body size
          (put_options classes.backups []) in
      elim failure [
        | some e ↦ (s', caches, refused 500)
        | none ↦ (s', publish_datastore_cache_invalidation datastore published caches, reply tt)
      ]

  -- An object that is sent down, or the status for a missing one.
  send : State → Bytes → Reply Bytes
  send s name = elim (store.get_object s name) [
    | err e ↦ refused 404
    | ok contents ↦ reply contents
  ]

  -- The download handler; `session` tells whether the request belongs to a session.
  unfoldable pub download : Snapshot → Bool → State → Bytes → Reply Bytes
  unfolding send
  download snapshot session s name =
      if session
      then if bytes_eq name [] then refused 400 else send s (archive_name snapshot name)
      else refused 401

  send_chunk : {E : Type 0} → State → Result E Bytes → Reply Bytes
  unfolding send
  send_chunk s (err e) = refused 400
  send_chunk s (ok name) = send s name

  -- The chunk handler of a restore
  unfoldable pub download_chunk : Bool → State → Bytes → Reply Bytes
  unfolding send_chunk
  download_chunk session s digest =
      if session then send_chunk s (chunk_object_name digest) else refused 401

  -- The sizes that come with an archive, if they are there and can be read. `unmarshal` reads the
  -- map from JSON, without regard to errors.
  sizes_with : (Bytes → Map ℕ) → State → Bytes → Map ℕ → Map ℕ
  sizes_with unmarshal s name known = elim (store.get_object s (name ++ codes ".csjson")) [
    | err e ↦ known
    | ok contents ↦ load_known_sizes (unmarshal contents) known
  ]

  -- The loop over the files of the most recent snapshot.
  previous_file :
      (Bytes → Map ℕ) → Snapshot → State → Map ℕ → Bytes → List SnapshotFile → Map ℕ × Reply Bytes
  unfolding sizes_with
  previous_file unmarshal snapshot s known name [] = (known, refused 404)
  previous_file unmarshal snapshot s known name (file ∷ files) =
      let rest = previous_file unmarshal snapshot s known name files in
      if bytes_eq file.filename name
      then (elim (store.get_object s (archive_name snapshot file.filename)) [
        | err e ↦ (known, refused 404)
        | ok contents ↦
            (sizes_with unmarshal s (archive_name snapshot file.filename) known, reply contents)
      ])
      else rest

  -- GET previous, on what GetLatestSnapshot returns
  unfoldable pub previous :
      (Bytes → Map ℕ) → Result Error (Option Snapshot) → State → Map ℕ → Bytes → Map ℕ × Reply Bytes
  unfolding previous_file
  previous unmarshal (err e) s known name = (known, refused 500)
  previous unmarshal (ok none) s known name = (known, refused 404)
  previous unmarshal (ok (some most_recent)) s known name =
      previous_file unmarshal most_recent s known name most_recent.files

-- With a store that reads back what it was given, a blob that is uploaded with success, whole and
-- under a name, is what a session that restores the snapshot downloads under that name.
pub upload_blob-download :
    {State : Type 0} (store : ObjectStore State)
    → ReadsBack store
    → (classes : StorageClassPolicy) (snapshot : Snapshot) (s : State) (name body : Bytes)
    → bytes_eq name [] ≡ false
    → (upload_blob store classes snapshot s name (pos (length body)) body).1 ≡ reply tt
    → download store snapshot true
        (upload_blob store classes snapshot s name (pos (length body)) body).0
        name
      ≡ reply body
unfolding upload_blob download send
upload_blob-download store reads_back classes snapshot s name body named success =
    let put =
      store.put_object s (archive_name snapshot name) body (pos (length body))
        (put_options classes.backups []) in
    elim (Option-cases put.1) [
      | inr (e, failed) ↦ absurd (ground (arith, success, failed))
      | inl written ↦
          let there =
            reads_back.put_reads s (archive_name snapshot name) body
              (put_options classes.backups []) written in
          rw (upload_blob, download, send, named, written, there) refl
    ]
