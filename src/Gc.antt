-- ===== src/Gc.antt =====
-- The garbage collector, cmd/garbagecollector.
pub mod Keys
pub mod Expiry
pub mod Plan
pub mod Sweep
pub mod Stats
pub mod Loaders
pub mod Run
pub mod Process
