-- ===== src/Proxy/Logins/Datastores.antt =====
-- The list of datastores (GET /api2/json/admin/datastore in ServeHTTP of
-- cmd/pmoxs3backuproxy/main.go), which is read through the cache that a login fills.
pub mod Held
pub mod Answered
use pmoxs3backuproxy.Prelude.{ℕ, Option, none, some, List, [], ◌∷◌, ◌++◌, Result}
use pmoxs3backuproxy.Prelude.Int.{ℤ}
use pmoxs3backuproxy.Prelude.Maps.{Map, insert, value_or}
use pmoxs3backuproxy.Prelude.Strings.{Bytes}
use pmoxs3backuproxy.Proxy.Cache.{Answer, cached, fresh, failed, Entry, entry, get}
use pmoxs3backuproxy.Proxy.Handlers.{Reply, reply, refused}
use pmoxs3backuproxy.Proxy.Logins.{Access, TicketEntry}

-- A request for the list: the times at which the cache looks, and what ListBuckets returns, by when.
pub record Listing : Type 0 where
  pub begins : ℤ
  pub fetched : Result ℕ (List Bytes)
  pub ends : ℤ

-- `C.AccessKeyID + "@" + C.Endpoint`
unfoldable pub list_key : Bytes → Bytes → Bytes
list_key access_key_id endpoint = access_key_id ++ (b'@' ∷ endpoint)

-- The names of the buckets, or status 500.
unfoldable pub datastores_of : Answer (List Bytes) → Reply (List Bytes)
datastores_of (cached buckets) = reply (value_or buckets [])
datastores_of (fresh buckets) = reply buckets
datastores_of (failed e) = refused 500

-- GET datastore, for an authenticated ticket
unfoldable pub list_datastores :
    {Connection : Type 0}
    → ℤ
    → Listing
    → TicketEntry Connection
    → Access Connection
    → Access Connection × Reply (List Bytes)
unfolding list_key datastores_of
list_datastores ttl listing ticket access =
    let key = list_key ticket.access_key_id ticket.endpoint in
    let (e, answer) =
      get ttl listing.begins listing.fetched listing.ends (entry access.bucket_lists key) in
    (record access { bucket_lists = insert access.bucket_lists key e }, datastores_of answer)
