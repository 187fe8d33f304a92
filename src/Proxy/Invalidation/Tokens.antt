-- ===== src/Proxy/Invalidation/Tokens.antt =====
-- A process that meets the same token again.
use pmoxs3backuproxy.Prelude.{
  true, false, ◌||◌, some, [], ◌≡◌, refl, arith, ok, Bool-cases, inl, inr, ◌⊎◌, ap,
}
use pmoxs3backuproxy.Prelude.Maps.{Map, value_or, lookup, insert, lookup-insert}
use pmoxs3backuproxy.Prelude.Strings.{Bytes, bytes_eq, bytes_eq_refl}
use pmoxs3backuproxy.Proxy.Invalidation.{
  Caches, invalidate_datastore_caches_local, publish_datastore_cache_invalidation,
  sync_datastore_cache_invalidation,
}

-- A token that was seen is not taken again.
pub sync-seen :
    (datastore token : Bytes) (c : Caches)
    → lookup c.seen datastore ≡ some token
    → sync_datastore_cache_invalidation datastore (ok token) c ≡ c
unfolding sync_datastore_cache_invalidation
sync-seen datastore token c h = rw (h, bytes_eq_refl token) (ground arith)

sync-empty :
    (datastore token : Bytes) (c : Caches)
    → bytes_eq token [] ≡ true
    → sync_datastore_cache_invalidation datastore (ok token) c ≡ c
unfolding sync_datastore_cache_invalidation
sync-empty datastore token c h = rw h refl

pub lookup-insert_self : (m : Map Bytes) (k v : Bytes) → lookup (insert m k v) k ≡ some v
lookup-insert_self m k v = rw (lookup-insert m k k v, bytes_eq_refl k) refl

publish-seen :
    (datastore token : Bytes) (c : Caches)
    → bytes_eq token [] ≡ false
    → lookup (publish_datastore_cache_invalidation datastore (ok token) c).seen datastore
      ≡ some token
unfolding publish_datastore_cache_invalidation invalidate_datastore_caches_local
publish-seen datastore token c h = rw h (lookup-insert_self c.seen datastore token)

-- Taking over a token leaves the caches alone, or the token is seen afterwards.
sync-cases :
    (datastore token : Bytes) (c : Caches)
    → (sync_datastore_cache_invalidation datastore (ok token) c ≡ c)
      ⊎ (lookup (sync_datastore_cache_invalidation datastore (ok token) c).seen datastore
          ≡ some token)
unfolding sync_datastore_cache_invalidation invalidate_datastore_caches_local
sync-cases datastore token c =
    elim (Bool-cases
      (bytes_eq token [] || bytes_eq token (value_or (lookup c.seen datastore) []))) [
        | inl t ↦ inl (rw t refl)
        | inr f ↦ inr (rw f (lookup-insert_self c.seen datastore token))
      ]

-- A process that has published a token, or has read it once, changes nothing when it reads that
-- token next.
pub sync_datastore_cache_invalidation-once :
    (datastore token : Bytes) (c : Caches)
    → let sync = sync_datastore_cache_invalidation datastore (ok token) in
      let published = publish_datastore_cache_invalidation datastore (ok token) c in
      (sync published ≡ published) × (sync (sync c) ≡ sync c)
sync_datastore_cache_invalidation-once datastore token c =
    let sync = sync_datastore_cache_invalidation datastore (ok token) in
    let published = publish_datastore_cache_invalidation datastore (ok token) c in
    (
      elim (Bool-cases (bytes_eq token [])) [
        | inl t ↦ sync-empty datastore token published t
        | inr f ↦ sync-seen datastore token published (publish-seen datastore token c f)
      ],
      elim (sync-cases datastore token c) [
        | inl kept ↦ ap sync kept
        | inr seen ↦ sync-seen datastore token (sync c) seen
      ],
    )
