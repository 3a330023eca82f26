-- ===== src/Client.antt =====
-- The package `client`.
pub mod Verify
pub mod Aggregator
pub mod Cache
pub mod Optimizing
pub mod Watching
pub mod Config
pub mod Sources
