-- ===== src/Key.antt =====
-- The package key: identities of nodes, groups of them, and what of both goes over the wire and to disk.
pub mod Suite
pub mod Identity
pub mod Node
pub mod Group
pub mod Wire
pub mod Toml
pub mod Store
