-- ===== src/Proxy/Logins/Server.antt =====
-- The requests that share the tickets and connections of a server, step by step (ServeHTTP and ticketGC
-- in cmd/pmoxs3backuproxy/main.go).
use pmoxs3backuproxy.Prelude.{ℕ, zero, suc, Option, none, some, List, [], ◌∷◌, ◌++◌, Result}
use pmoxs3backuproxy.Prelude.Int.{ℤ}
use pmoxs3backuproxy.Prelude.Strings.{Bytes}
use pmoxs3backuproxy.Proxy.Logins.{
  Upstream, TicketEntry, Access, Login, Phase, looking_up, log_in_step, authenticate,
  expire_tickets,
}
use pmoxs3backuproxy.Proxy.Logins.Datastores.{Listing, list_datastores}

-- A login and where it is.
abbrev pub Session : Type 0 → Type 0
Session Connection = Login × Phase Connection

-- The shared maps, and the logins so far by their number.
pub record Server (Connection : Type 0) : Type 0 where
  pub access : Access Connection
  pub logins : List (Session Connection)

-- A login begins; the login of this number takes its next step, with what ListBuckets returns then; a
-- round of ticketGC over some tickets; a request for the datastores with a cookie.
pub data Event (Connection : Type 0) : Type 0 where
  begun : Login → Event Connection
  stepped : (Connection → Result ℕ (List Bytes)) → ℕ → Event Connection
  collection : ℕ → List Bytes → Event Connection
  asking : Listing → Bytes → Event Connection

module _ {Connection : Type 0} where
  -- The step of one login among all.
  unfoldable pub step_login :
      Upstream Connection
      → ℕ
      → Access Connection
      → List (Session Connection)
      → Access Connection × List (Session Connection)
  step_login upstream n access [] = (access, [])
  step_login upstream zero access ((login, phase) ∷ logins) =
      let (access', phase') = log_in_step upstream login (access, phase) in
      (access', (login, phase') ∷ logins)
  step_login upstream (suc n) access (session ∷ logins) =
      let (access', logins') = step_login upstream n access logins in (access', session ∷ logins')

  unfoldable pub answer_asking :
      ℤ → Listing → Access Connection → Option (TicketEntry Connection) → Access Connection
  answer_asking ttl listing access none = access
  answer_asking ttl listing access (some ticket) = (list_datastores ttl listing ticket access).0

  module _ (new_client : Bytes → Bytes → Option Connection) (ttl : ℤ) where
    unfoldable pub happen : Server Connection → Event Connection → Server Connection
    happen server (begun login) = record server {
      logins = server.logins ++ (login, looking_up) ∷ [];
    }
    happen server (stepped list_buckets n) =
        let (access, logins) =
          step_login (record { new_client = new_client; list_buckets = list_buckets }) n
            server.access server.logins in
        record { access = access; logins = logins }
    happen server (collection now tickets) = record server {
      access = record server.access {
        auth = (expire_tickets now tickets (server.access.auth, 0)).0;
      };
    }
    happen server (asking listing cookie) = record server {
      access = answer_asking ttl listing server.access (authenticate server.access cookie);
    }

    unfoldable pub happen_all : Server Connection → List (Event Connection) → Server Connection
    happen_all server [] = server
    happen_all server (event ∷ events) = happen_all (happen server event) events

abbrev pub nobody : {Connection : Type 0} → Server Connection
nobody = record {
  access = record { bucket_lists = []; auth = []; connection_list = [] };
  logins = [];
}
