-- ===== src/Proxy/Cache/Entries.antt =====
-- The answers of the cache: stale values instead of errors, and what each invalidation changes.
use pmoxs3backuproxy.Prelude.{
  ℕ, false, none, some, [], ◌∷◌, ◌≡◌, arith, refl, Result, err, if◌then◌else◌,
}
use pmoxs3backuproxy.Prelude.Int.{ℤ}
use pmoxs3backuproxy.Prelude.Maps.{Map, lookup, lookup-insert}
use pmoxs3backuproxy.Prelude.Strings.{Bytes, has_prefix, bytes_eq_iff, bytes_eq_refl}
use pmoxs3backuproxy.Proxy.Cache.{
  Entry, is_fresh, failed, get, invalidate, invalidate_prefix, entry, update,
}

module _ {T : Type 0} where
  -- Get fails only if nothing valid is cached and the fetch failed; the entry is then unchanged.
  pub get-failed :
      (ttl now after : ℤ) (fetch : Result ℕ T) (e : Entry T) (x : ℕ)
      → (get ttl now fetch after e).1 ≡ failed x
      → (e.valid ≡ false) × (fetch ≡ err x) × ((get ttl now fetch after e).0 ≡ e)
  unfolding get is_fresh
  get-failed ttl now after fetch e x h = ground arith

  -- Invalidating a prefix makes every entry under it invalid, and changes no other.
  pub invalidate_prefix-lookup :
      (c : Map (Entry T)) (prefix key : Bytes)
      → lookup (invalidate_prefix c prefix) key ≡ (
          if has_prefix key prefix
          then (elim (lookup c key) [ none ↦ none | some e ↦ some (invalidate e) ])
          else lookup c key)
  unfolding invalidate_prefix lookup
  invalidate_prefix-lookup [] prefix key = ground arith
  invalidate_prefix-lookup ((k, e) ∷ c) prefix key =
      ground (arith, bytes_eq_iff k key, invalidate_prefix-lookup c prefix key)

-- A method on the entry of a key changes that entry by itself.
pub entry-update :
    {T : Type 0} (c : Map (Entry T)) (key : Bytes) (f : Entry T → Entry T)
    → entry (update c key f) key ≡ f (entry c key)
unfolding entry update
entry-update c key f = rw (lookup-insert c key key (f (entry c key)), bytes_eq_refl key) refl
