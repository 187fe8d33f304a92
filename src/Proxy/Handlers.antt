-- ===== src/Proxy/Handlers.antt =====
-- The request handlers of ServeHTTP (cmd/pmoxs3backuproxy/main.go): what each answers and changes.
-- HTTP itself is left out: a handler gets the parsed request.
pub mod Tags
pub mod Store
pub mod Indexes
pub mod Transfers
pub mod Listings
pub mod Answers
pub mod Deletion
pub mod Files
use pmoxs3backuproxy.Prelude.{ℕ}

-- What a handler answers: data with status 200, an error status, or a panic, which ends the
-- connection.
pub data Reply (A : Type 0) : Type 0 where
  reply : A → Reply A
  refused : ℕ → Reply A
  panicked : Reply A
