-- ===== src/Key/Node.antt =====
-- key/node.go: an identity with its index in a group.
use drand.Prelude.{ℕ, Bool, ◌&&◌, ◌==◌, ◌++◌, Bytes}
use drand.Key.Suite.{Suite, little_endian}
use drand.Key.Identity.{Identity, identity_equal}

module _ (K : Suite) where
  pub record Node : Type 0 where
    pub identity : Identity K
    -- a uint32
    pub index : ℕ

  -- Node.Hash: the index and the key
  unfoldable pub node_hash : Node → Bytes
  unfolding little_endian
  node_hash n = K.blake2b (little_endian 4 n.index ++ K.marshal n.identity.key)

  -- Node.Equal
  unfoldable pub node_equal : Node → Node → Bool
  unfolding identity_equal
  node_equal n n2 = n.index == n2.index && identity_equal K n.identity n2.identity
