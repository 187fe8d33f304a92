-- ===== src/Proxy/Logins.antt =====
-- Logins and tickets (ServeHTTP and ticketGC in cmd/pmoxs3backuproxy/main.go). Making a client and
-- listing its buckets are parameters, as are the random ticket and the time. The handler holds no lock:
-- what it does between two uses of a shared map is a step, and the steps of other requests may come in
-- between. That the Go runtime may end the process when it notices two uses of connectionList at the same
-- time is left out.
pub mod Tickets
pub mod Datastores
pub mod Server
pub mod Checked
use pmoxs3backuproxy.Prelude.{
  ℕ, suc, Bool, true, false, Option, none, some, List, [], ◌∷◌, ◌++◌, ltb, Result, ok, err,
  if◌then◌else◌,
}
use pmoxs3backuproxy.Prelude.Int.{ℤ}
use pmoxs3backuproxy.Prelude.Maps.{Map, lookup, insert, remove}
use pmoxs3backuproxy.Prelude.Strings.{Bytes, cut}
use pmoxs3backuproxy.Prelude.Words.{add64}
use pmoxs3backuproxy.Proxy.Cache.{Entry, update, store}
use pmoxs3backuproxy.Proxy.Handlers.{Reply, reply, refused, panicked}

-- The S3 connections: making one from a user and a password, and whether its buckets can be listed.
pub record Upstream (Connection : Type 0) : Type 0 where
  pub new_client : Bytes → Bytes → Option Connection
  pub list_buckets : Connection → Result ℕ (List Bytes)

pub record TicketEntry (Connection : Type 0) : Type 0 where
  pub access_key_id : Bytes
  pub secret_access_key : Bytes
  pub endpoint : Bytes
  -- nothing where connectionList had no connection
  pub client : Option Connection
  pub expire : ℕ

-- The tickets, the connections by user, and the cached bucket lists by user and endpoint.
pub record Access (Connection : Type 0) : Type 0 where
  pub bucket_lists : Map (Entry (List Bytes))
  pub auth : Map (TicketEntry Connection)
  pub connection_list : Map Connection

-- A login: what the request holds, the server's settings, and what is drawn and read for it.
pub record Login : Type 0 where
  pub username : Bytes
  pub password : Bytes
  pub endpoint : Bytes
  pub ticket_expire : ℕ
  pub ticket : Bytes
  pub now : ℕ
  -- the time of the cache, in nanoseconds
  pub clock : ℤ

-- strings.Split(username, "@")[0]
unfoldable pub user_of : Login → Bytes
user_of login = (cut login.username b'@').0

-- Where a login is: before it looks for a connection, before it makes one, before it calls ListBuckets
-- on the one it has entered, in that call, before it takes the connection of its user, before it stores
-- its ticket with that, or answered.
pub data Phase (Connection : Type 0) : Type 0 where
  looking_up connecting entered : Phase Connection
  listing_buckets : Connection → Phase Connection
  storing : Phase Connection
  ticketing : Option Connection → Phase Connection
  ended : Reply Bytes → Phase Connection

-- `bucketListCache.Store(username+"@"+te.Endpoint, buckets)`
unfoldable pub store_buckets :
    {Connection : Type 0} → Access Connection → Login → List Bytes → Access Connection
store_buckets access login buckets = record access {
  bucket_lists =
      update access.bucket_lists (user_of login ++ (b'@' ∷ login.endpoint))
        (store buckets login.clock);
}

-- The entry is stored under its ticket, with the connection that the user had, if any.
unfoldable pub store_ticket :
    {Connection : Type 0} → Access Connection → Login → Option Connection → Access Connection
store_ticket access login client = record access {
  auth = insert access.auth login.ticket (record {
    access_key_id = user_of login;
    secret_access_key = login.password;
    endpoint = login.endpoint;
    client = client;
    expire = add64 login.now login.ticket_expire;
  });
}

module _ {Connection : Type 0} (upstream : Upstream Connection) where
  -- A new connection is entered, whether or not another login of the user has entered one meanwhile.
  unfoldable pub enter_connection : Access Connection → Login → Access Connection × Phase Connection
  enter_connection access login = elim (upstream.new_client (user_of login) login.password) [
    | none ↦ (access, ended (refused 403))
    | some client ↦ (
      record access { connection_list = insert access.connection_list (user_of login) client },
      entered,
    )
  ]

  -- What ListBuckets returns: the list is cached, or the user's connection is taken out again.
  unfoldable pub end_listing :
      Access Connection → Login → Result ℕ (List Bytes) → Access Connection × Phase Connection
  end_listing access login (ok buckets) = (store_buckets access login buckets, storing)
  end_listing access login (err e) = (
    record access { connection_list = remove access.connection_list (user_of login) },
    ended (refused 403),
  )

  -- POST ticket, from the parsed request on: the next step. A call on a missing connection panics.
  unfoldable pub log_in_step :
      Login → Access Connection × Phase Connection → Access Connection × Phase Connection
  unfolding enter_connection end_listing
  log_in_step login (access, looking_up) = elim (lookup access.connection_list (user_of login)) [
    | none ↦ (access, connecting)
    | some client ↦ (access, storing)
  ]
  log_in_step login (access, connecting) = enter_connection access login
  log_in_step login (access, entered) = elim (lookup access.connection_list (user_of login)) [
    | none ↦ (access, ended panicked)
    | some client ↦ (access, listing_buckets client)
  ]
  log_in_step login (access, listing_buckets client) =
      end_listing access login (upstream.list_buckets client)
  log_in_step login (access, storing) =
      (access, ticketing (lookup access.connection_list (user_of login)))
  log_in_step login (access, ticketing client) =
      (store_ticket access login client, ended (reply login.ticket))
  log_in_step login (access, ended answer) = (access, ended answer)

-- The ticket of a cookie.
unfoldable pub authenticate :
    {Connection : Type 0} → Access Connection → Bytes → Option (TicketEntry Connection)
authenticate access cookie = lookup access.auth cookie

-- One round of ticketGC, over the tickets that Range visits, with the count of the expired.
unfoldable pub expire_tickets :
    {Connection : Type 0}
    → ℕ
    → List Bytes
    → Map (TicketEntry Connection) × ℕ
    → Map (TicketEntry Connection) × ℕ
expire_tickets now [] (auth, count) = (auth, count)
expire_tickets now (ticket ∷ tickets) (auth, count) = elim (lookup auth ticket) [
  | none ↦ expire_tickets now tickets (auth, count)
  | some entry ↦ elim (ltb entry.expire now) [
    | true ↦ expire_tickets now tickets (remove auth ticket, suc count)
    | false ↦ expire_tickets now tickets (auth, count)
  ]
]
