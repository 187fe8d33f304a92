-- ===== src/Proxy/Handlers/Deletion.antt =====
-- The deletion of a snapshot by request, and the end of a backup (ServeHTTP in
-- cmd/pmoxs3backuproxy/main.go).
pub mod Deleted
use pmoxs3backuproxy.Prelude.{
  ℕ, Bool, true, false, Option, none, some, List, [], ◌∷◌, ◌≡◌, ◌⊎◌, ◌≢◌, ◌∙◌, refl, sym, ap, subst,
  arith, inl, inr, Bool-cases, Option-cases, All, Elem, Elem-any, Result, ok, err, ok-injective,
  if◌then◌else◌, >>=-eq-ok, map,
}
use pmoxs3backuproxy.Prelude.Strings.{Bytes, bytes_eq, has_prefix}
use pmoxs3backuproxy.Client.{Client, Documented, keys}
use pmoxs3backuproxy.Objects.{Error, ObjectInfo}
use pmoxs3backuproxy.Snapshots.{Snapshot}
use pmoxs3backuproxy.Snapshots.Delete.{delete, delete-has, deletion_prefix, listed_objects}
use pmoxs3backuproxy.Proxy.Handlers.{Reply, reply, refused}
use pmoxs3backuproxy.Proxy.Invalidation.{
  Caches, invalidate_datastore_caches_local, publish_datastore_cache_invalidation,
}

-- POST finish, of a session with its datastore, if it has one: whether the backup is finished.
unfoldable pub finish_backup : Option Bytes → Result ℕ Bytes → Caches → Caches × Bool
finish_backup none published c = (c, true)
finish_backup (some datastore) published c =
    (publish_datastore_cache_invalidation datastore published c, true)

module _ {State : Type 0} (client : Client State) where
  deleted :
      Snapshot → Result ℕ Bytes → Caches → State × List Error → State × Caches × Reply Snapshot
  deleted snapshot published c (s, []) =
      (s, publish_datastore_cache_invalidation snapshot.datastore published c, reply snapshot)
  deleted snapshot published c (s, e ∷ errors) =
      (s, publish_datastore_cache_invalidation snapshot.datastore published c, refused 500)

  -- DELETE snapshots
  unfoldable pub delete_snapshot :
      Snapshot → Result ℕ Bytes → State → Caches → State × Caches × Reply Snapshot
  unfolding deleted
  delete_snapshot snapshot published s c =
      deleted snapshot published (invalidate_datastore_caches_local snapshot.datastore c)
        (delete client s snapshot)
