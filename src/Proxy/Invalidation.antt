-- ===== src/Proxy/Invalidation.antt =====
-- The invalidation of the proxy's caches (cmd/pmoxs3backuproxy/cache_invalidation.go). What reading
-- or publishing a token returns is an argument.
pub mod Tokens
pub mod TokenFiles
use pmoxs3backuproxy.Prelude.{
  ℕ, Bool, true, false, ◌||◌, List, [], ◌∷◌, ◌++◌, Result, ok, err, if◌then◌else◌,
}
use pmoxs3backuproxy.Prelude.Maps.{Map, lookup, insert, value_or}
use pmoxs3backuproxy.Prelude.Strings.{Bytes, bytes_eq}
use pmoxs3backuproxy.Snapshots.{Snapshot}
use pmoxs3backuproxy.Proxy.Cache.{Entry, update, invalidate, expire, invalidate_prefix}
use pmoxs3backuproxy.Proxy.Sizes.{DataStoreUsage}

-- The caches of the process, and the tokens that it has seen.
pub record Caches : Type 0 where
  pub snapshot_lists : Map (Entry (List Snapshot))
  pub datastore_usages : Map (Entry DataStoreUsage)
  pub usage_reports : Map (Entry Bytes)
  pub archive_sizes : Map (Entry ℕ)
  pub manifest_crypt_modes : Map (Entry (Map Bytes))
  pub seen : Map Bytes

-- invalidateDataStoreCachesLocal
unfoldable pub invalidate_datastore_caches_local : Bytes → Caches → Caches
invalidate_datastore_caches_local datastore c = record c {
  snapshot_lists = update c.snapshot_lists datastore invalidate;
  datastore_usages = update c.datastore_usages datastore expire;
  usage_reports = update c.usage_reports datastore invalidate;
  archive_sizes = invalidate_prefix c.archive_sizes (datastore ++ (b'/' ∷ []));
  manifest_crypt_modes = invalidate_prefix c.manifest_crypt_modes (datastore ++ (b'/' ∷ []));
}

abbrev note_token : Bytes → Bytes → Caches → Caches
note_token datastore token c = record c { seen = insert c.seen datastore token }

-- publishDataStoreCacheInvalidation
unfoldable pub publish_datastore_cache_invalidation : Bytes → Result ℕ Bytes → Caches → Caches
publish_datastore_cache_invalidation datastore published c =
    let c' = invalidate_datastore_caches_local datastore c in
    elim published [
      | err e ↦ c'
      | ok token ↦ if bytes_eq token [] then c' else note_token datastore token c'
    ]

-- syncDataStoreCacheInvalidation
unfoldable pub sync_datastore_cache_invalidation : Bytes → Result ℕ Bytes → Caches → Caches
sync_datastore_cache_invalidation datastore read c = elim read [
  | err e ↦ c
  | ok token ↦
      if bytes_eq token [] || bytes_eq token (value_or (lookup c.seen datastore) [])
      then c
      else invalidate_datastore_caches_local datastore (note_token datastore token c)
]
