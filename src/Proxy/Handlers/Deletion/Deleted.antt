-- ===== src/Proxy/Handlers/Deletion/Deleted.antt =====
-- What a deletion that is answered with success has done, and what the next listing shows.
use pmoxs3backuproxy.Prelude.{
  ℕ, Bool, false, List, [], ◌∷◌, ◌≡◌, ◌∙◌, refl, ap, Result, if◌then◌else◌,
}
use pmoxs3backuproxy.Prelude.Strings.{Bytes, has_prefix}
use pmoxs3backuproxy.Client.{Documented}
use pmoxs3backuproxy.Objects.{Error}
use pmoxs3backuproxy.Snapshots.{Snapshot}
use pmoxs3backuproxy.Snapshots.Delete.{delete, deletion_prefix}
use pmoxs3backuproxy.Snapshots.Delete.Whole.{ListsAll, delete-exact}
use pmoxs3backuproxy.Proxy.Handlers.{reply}
use pmoxs3backuproxy.Proxy.Handlers.Deletion.{deleted, delete_snapshot}
use pmoxs3backuproxy.Proxy.Invalidation.{Caches, invalidate_datastore_caches_local}
use pmoxs3backuproxy.Proxy.Reports.Listing.{Reporting, Times, fetch_listing, list_snapshots_cached}
use pmoxs3backuproxy.Proxy.Reports.Listing.Fresh.{list_snapshots_cached-publish}

module _ {State : Type 0} (reporting : Reporting State) (s : State) (c : Caches)
    (snapshot : Snapshot) (published : Result ℕ Bytes) where
  deleted-state :
      (r : State × List Error) (c : Caches)
      → (deleted reporting.client snapshot published c r).0 ≡ r.0
  unfolding deleted
  deleted-state (s', []) c = refl
  deleted-state (s', e ∷ errors) c = refl

  deleted-reply :
      (r : State × List Error) (c : Caches)
      → (deleted reporting.client snapshot published c r).2 ≡ reply snapshot
      → r.1 ≡ []
  unfolding deleted
  deleted-reply (s', []) c h = refl
  deleted-reply (s', e ∷ errors) c h = cc

  deleted-listed :
      (times : Times) (r : State × List Error) (c : Caches)
      → let (s', c', answer) = deleted reporting.client snapshot published c r in
        (list_snapshots_cached reporting s' snapshot.datastore times c').1
        ≡ (fetch_listing reporting s' snapshot.datastore times c').1
  unfolding deleted
  deleted-listed times (s', []) c =
      list_snapshots_cached-publish reporting s' snapshot.datastore times published c
  deleted-listed times (s', e ∷ errors) c =
      list_snapshots_cached-publish reporting s' snapshot.datastore times published c

  -- Whatever DELETE snapshots answers, the next listing of the datastore is the one that fetching it
  -- from the store returns, as the deletion left the store.
  pub delete_snapshot-listed :
      (times : Times)
      → let (s', c', answer) = delete_snapshot reporting.client snapshot published s c in
        (list_snapshots_cached reporting s' snapshot.datastore times c').1
        ≡ (fetch_listing reporting s' snapshot.datastore times c').1
  unfolding delete_snapshot
  delete_snapshot-listed times =
      deleted-listed times (delete reporting.client s snapshot)
        (invalidate_datastore_caches_local snapshot.datastore c)

  -- With a client that does as documented and lists what is there: if DELETE snapshots is answered
  -- with success, no object is left under the prefix of the snapshot, and every other key is there if
  -- it was there before.
  pub delete_snapshot-exact :
      (has : State → Bytes → Bool)
      → Documented reporting.client has
      → ListsAll reporting.client has
      → (key : Bytes) → (delete_snapshot reporting.client snapshot published s c).2 ≡ reply snapshot
      → has (delete_snapshot reporting.client snapshot published s c).0 key
        ≡ (if has_prefix key (deletion_prefix snapshot) then false else has s key)
  unfolding delete_snapshot
  delete_snapshot-exact has documented lists_all key success =
      let r = delete reporting.client s snapshot in
      let c' = invalidate_datastore_caches_local snapshot.datastore c in
      ap (λ s'. has s' key) (deleted-state r c')
      ∙ delete-exact reporting.client has documented lists_all s snapshot key
          (deleted-reply r c' success)
