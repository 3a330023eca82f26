-- ===== src/Core.antt =====
-- The package `core`.
pub mod Broadcast
pub mod Setup
pub mod Push
pub mod Daemon
pub mod Convert
pub mod Public
pub mod Calls
pub mod Commands
pub mod FollowChain
