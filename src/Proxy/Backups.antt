-- ===== src/Proxy/Backups.antt =====
-- The bodies of a backup and a restore session (cmd/pmoxs3backuproxy/http2.go). What happens while
-- the connection is served, the requests of the session and those of others, is a parameter.
pub mod Ended
use pmoxs3backuproxy.Prelude.{ℕ, Bool, true, false, Result, ok, err}
use pmoxs3backuproxy.Prelude.Strings.{Bytes}
use pmoxs3backuproxy.Client.{Client}
use pmoxs3backuproxy.Snapshots.{Snapshot}
use pmoxs3backuproxy.Snapshots.Delete.{delete}
use pmoxs3backuproxy.Proxy.Invalidation.{Caches, publish_datastore_cache_invalidation}
use pmoxs3backuproxy.Proxy.Sessions.{Locks, begin_datastore_session, end_datastore_session}

-- The bucket and what the process keeps.
pub record World (Bucket : Type 0) : Type 0 where
  pub bucket : Bucket
  pub locks : Locks
  pub caches : Caches

-- What a session is about: its lock, its datastore and its snapshot. `acquired` and `published` are
-- what acquiring the process mutex and publishing a token return.
pub record Session : Type 0 where
  pub lock_name : Bytes
  pub datastore : Bytes
  pub snapshot : Snapshot
  pub acquired : Result ℕ ℕ
  pub published : Result ℕ Bytes

-- The removal of a backup that was not finished.
unfoldable pub remove_incomplete :
    {Bucket : Type 0} → Client Bucket → Session → Bool → Bucket → Bucket
remove_incomplete client session true bucket = bucket
remove_incomplete client session false bucket =
    (delete client bucket (record (session.snapshot) { datastore = session.datastore })).0

module _ {Bucket : Type 0} (client : Client Bucket)
    (serve : World Bucket → World Bucket × Bool) where
  -- backup, from a session that has begun on
  unfoldable pub backup_begun : Session → Bytes → World Bucket → World Bucket
  unfolding remove_incomplete
  backup_begun session lock_name world =
      let (served, finished) = serve world in
      record {
        bucket = remove_incomplete client session finished served.bucket;
        locks = (end_datastore_session lock_name served.locks).0;
        caches =
            publish_datastore_cache_invalidation session.datastore session.published served.caches;
      }

  -- backup, from the result of beginDataStoreSession on
  unfoldable pub backup_from : Session → World Bucket → Locks × Result ℕ Bytes → World Bucket
  unfolding backup_begun
  backup_from session world (locks, err e) = record world { locks = locks }
  backup_from session world (locks, ok lock_name) =
      backup_begun session lock_name (record world { locks = locks })

  -- backup
  unfoldable pub backup : Session → World Bucket → World Bucket
  unfolding backup_from
  backup session world =
      backup_from session world
        (begin_datastore_session session.acquired session.lock_name world.locks)

  -- restore, from a session that has begun on
  restore_begun : Bytes → World Bucket → World Bucket
  restore_begun lock_name world =
      let (served, finished) = serve world in
      record served { locks = (end_datastore_session lock_name served.locks).0 }

  -- restore
  unfoldable pub restore : Session → World Bucket → World Bucket
  unfolding restore_begun
  restore session world =
      let (locks, begun) = begin_datastore_session session.acquired session.lock_name world.locks in
      elim begun [
        | err e ↦ record world { locks = locks }
        | ok lock_name ↦ restore_begun lock_name (record world { locks = locks })
      ]
