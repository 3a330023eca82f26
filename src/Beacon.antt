-- ===== src/Beacon.antt =====
-- The package `beacon` (chain/beacon).
pub mod Cache
pub mod Append
pub mod Aggregator
pub mod Ticker
pub mod Handler
pub mod Sync
pub mod Start
