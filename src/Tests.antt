-- ===== src/Tests.antt =====
-- Runs of the theorems on concrete inputs.
mod Bucket
mod Collector
mod Store
mod Proxy
mod Writers
mod Flights
mod Files
mod Handlers
mod Backups
mod Logins
mod Closing
mod Tokens
mod Reports
mod Process
mod Settings
