-- ===== src/Chain.antt =====
-- The package `chain`.
pub mod Time
pub mod Crypto
pub mod Block
pub mod Encoding
pub mod Info
