-- ===== src/Proxy/Logins/Datastores/Answered.antt =====
-- The answer to a request for the datastores, over the life of a server (ServeHTTP in
-- cmd/pmoxs3backuproxy/main.go).
use pmoxs3backuproxy.Prelude.{ℕ, zero, suc, Option, none, some, List, [], ◌∷◌}
use pmoxs3backuproxy.Prelude.Strings.{Bytes}
use pmoxs3backuproxy.Proxy.Cache.{entry}
use pmoxs3backuproxy.Proxy.Logins.{Access}
use pmoxs3backuproxy.Proxy.Logins.Datastores.Held.{IsListing}
use pmoxs3backuproxy.Proxy.Logins.Server.{Session, Server}

-- The login of this number.
unfoldable pub session_at :
    {Connection : Type 0} → List (Session Connection) → ℕ → Option (Session Connection)
session_at [] n = none
session_at (session ∷ logins) zero = some session
session_at (session ∷ logins) (suc n) = session_at logins n

module _ {Connection : Type 0} where
  module _ (key : Bytes) where
    -- The cache holds a list under the key.
    HasList : Access Connection → Type 0
    HasList access = IsListing (entry access.bucket_lists key)
