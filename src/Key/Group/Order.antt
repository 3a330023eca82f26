-- ===== src/Key/Group/Order.antt =====
-- key/group.go, Hash and GetGenesisSeed: the order that the nodes of a group stand in.
use drand.Prelude.{◌≡◌, refl, inl, inr, Bytes-IsSet, List, ◌++◌, Perm, Option-cases}
use drand.Prelude.Words.{to_uint64}
use drand.Prelude.Sorting.Distinct.{IsDistinct, apply_by_key}
use drand.Key.Suite.{Suite, little_endian}
use drand.Key.Node.{Node}
use drand.Key.Group.{
  Group, hash_nodes, hash_transition, hash_dist, group_hash, get_genesis_seed, seed_or_hash,
}

module _ (K : Suite) where
  abbrev pub reordered : Group K → List (Node K) → Group K
  reordered g ns = record g { nodes = ns }

  abbrev pub HasDistinctIndices : Group K → Type 0
  HasDistinctIndices g = IsDistinct (λ (n : Node K). n.index) g.nodes

  -- The bytes hashed are read from the nodes by index.
  pub group_hash-reordered :
      (g : Group K) (ns : List (Node K))
      → Perm g.nodes ns
      → HasDistinctIndices g
      → (group_hash K g).0 ≡ (group_hash K (reordered g ns)).0
  unfolding group_hash
  group_hash-reordered g ns p h =
      apply_by_key (λ (n : Node K). n.index) Bytes-IsSet
        (λ l. K.blake2b (
          hash_nodes K l
          ++ little_endian 4 g.threshold
          ++ little_endian 8 (to_uint64 g.genesis_time)
          ++ hash_transition K g.transition_time
          ++ hash_dist K g.public_key))
        p h

  pub get_genesis_seed-reordered :
      (g : Group K) (ns : List (Node K))
      → Perm g.nodes ns
      → HasDistinctIndices g
      → (get_genesis_seed K g).0 ≡ (get_genesis_seed K (reordered g ns)).0
  unfolding get_genesis_seed seed_or_hash
  get_genesis_seed-reordered g ns p h = elim (Option-cases g.genesis_seed) [
    | inl unset ↦ rw (unset, seed_or_hash) (group_hash-reordered g ns p h)
    | inr set ↦ rw (set.1, seed_or_hash) refl
  ]
