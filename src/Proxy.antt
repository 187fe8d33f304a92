-- ===== src/Proxy.antt =====
-- The proxy, cmd/pmoxs3backuproxy.
pub mod Cache
pub mod Sessions
pub mod Upload
pub mod Writers
pub mod Sizes
pub mod Invalidation
pub mod Flights
pub mod Handlers
pub mod Backups
pub mod Chunks
pub mod Logins
pub mod Reports
pub mod Signals
pub mod Dispatch
pub mod Settings
