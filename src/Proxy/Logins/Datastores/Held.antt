-- ===== src/Proxy/Logins/Datastores/Held.antt =====
-- The cached lists of datastores under the methods of the cache (cmd/pmoxs3backuproxy/cache.go).
use pmoxs3backuproxy.Prelude.{ℕ, true, some, List, ◌≡◌, refl, inl, inr, Bool-cases, Result}
use pmoxs3backuproxy.Prelude.Int.{ℤ}
use pmoxs3backuproxy.Prelude.Maps.{Map, lookup-insert}
use pmoxs3backuproxy.Prelude.Strings.{Bytes, bytes_eq}
use pmoxs3backuproxy.Proxy.Cache.{Entry, entry, get, is_fresh, store, update}
use pmoxs3backuproxy.Proxy.Handlers.{reply}
use pmoxs3backuproxy.Proxy.Logins.Tickets.{Result-cases}
use pmoxs3backuproxy.Proxy.Logins.Datastores.{datastores_of}

-- A valid entry, with a list.
unfoldable pub IsListing : Entry (List Bytes) → Type 0
IsListing e = (e.valid ≡ true) × (buckets : List Bytes) × (e.value ≡ some buckets)

pub entry-update_cases :
    {T : Type 0} (P : Entry T → Type 0) (c : Map (Entry T)) (k j : Bytes) (f : Entry T → Entry T)
    → (bytes_eq k j ≡ true → P (f (entry c k)))
    → P (entry c j)
    → P (entry (update c k f) j)
unfolding update entry
entry-update_cases P c k j f same other = elim (Bool-cases (bytes_eq k j)) [
  | inl t ↦ rw (lookup-insert c k j (f (entry c k)), t) (same t)
  | inr n ↦ rw (lookup-insert c k j (f (entry c k)), n) other
]

pub store-IsListing :
    (buckets : List Bytes) (now : ℤ) (e : Entry (List Bytes)) → IsListing (store buckets now e)
unfolding IsListing store
store-IsListing buckets now e = (refl, buckets, refl)

module _ (ttl now : ℤ) (fetched : Result ℕ (List Bytes)) (after : ℤ) where
  pub get-IsListing :
      (e : Entry (List Bytes)) → IsListing e → IsListing (get ttl now fetched after e).0
  unfolding get IsListing
  get-IsListing e listed = elim (Bool-cases (is_fresh ttl now e)) [
    | inl t ↦ rw t listed
    | inr f ↦ elim (Result-cases fetched) [
      | inl (buckets, answer) ↦ rw (f, answer) (refl, buckets, refl)
      | inr (x, failure) ↦ rw (f, failure) listed
    ]
  ]

  pub get-reply :
      (e : Entry (List Bytes))
      → IsListing e
      → (stores : List Bytes) × (datastores_of (get ttl now fetched after e).1 ≡ reply stores)
  unfolding get IsListing datastores_of
  get-reply e (valid, buckets, held) = elim (Bool-cases (is_fresh ttl now e)) [
    | inl t ↦ (buckets, rw (t, held) refl)
    | inr f ↦ elim (Result-cases fetched) [
      | inl (found, answer) ↦ (found, rw (f, answer) refl)
      | inr (x, failure) ↦ (buckets, rw (f, failure, valid, held) refl)
    ]
  ]
