-- ===== src/Chain/Info/Order.antt =====
-- chain/info.go, key/group.go: nodes whose group files list the members in another order agree on the
-- chain.
use drand.Prelude.{◌≡◌, refl, ap, Bytes, List, Option, none, some, Perm}
use drand.Key.Suite.{Suite}
use drand.Key.Identity.{DistPublic, dist_key}
use drand.Key.Node.{Node}
use drand.Key.Group.{Group, group_hash, get_genesis_seed}
use drand.Key.Group.Order.{
  reordered, HasDistinctIndices, group_hash-reordered, get_genesis_seed-reordered,
}
use drand.Chain.Info.{new_chain_info, info_of_key}

module _ (K : Suite) (sha256 : Bytes → Bytes) where
  info_of_key-reordered :
      (g : Group K) (ns : List (Node K)) (k : Option K.Point)
      → (get_genesis_seed K g).0 ≡ (get_genesis_seed K (reordered K g ns)).0
      → info_of_key K sha256 g k ≡ info_of_key K sha256 (reordered K g ns) k
  unfolding info_of_key
  info_of_key-reordered g ns none e = refl
  info_of_key-reordered g ns (some key) e =
      ap
        (λ s. some (record {
          public_key = key;
          period = g.period;
          genesis_time = g.genesis_time;
          group_hash = s;
        }))
        e

  info_of_dist-reordered :
      (g : Group K) (ns : List (Node K)) (d : Option (DistPublic K))
      → (get_genesis_seed K g).0 ≡ (get_genesis_seed K (reordered K g ns)).0
      → (elim d [ none ↦ none | some p ↦ info_of_key K sha256 g (dist_key K p) ])
        ≡ (elim d [ none ↦ none | some p ↦ info_of_key K sha256 (reordered K g ns) (dist_key K p) ])
  info_of_dist-reordered g ns none e = refl
  info_of_dist-reordered g ns (some d) e = info_of_key-reordered g ns (dist_key K d) e

  -- For nodes with distinct indices: the hash of the group, the seed of its chain and the information on
  -- the chain do not depend on the order that the group lists its nodes in.
  pub new_chain_info-reordered :
      (g : Group K) (ns : List (Node K))
      → Perm g.nodes ns
      → HasDistinctIndices K g
      → ((group_hash K g).0 ≡ (group_hash K (reordered K g ns)).0)
        × ((get_genesis_seed K g).0 ≡ (get_genesis_seed K (reordered K g ns)).0)
        × (new_chain_info K sha256 g ≡ new_chain_info K sha256 (reordered K g ns))
  unfolding new_chain_info
  new_chain_info-reordered g ns p h =
      let seeds = get_genesis_seed-reordered K g ns p h in
      (group_hash-reordered K g ns p h, seeds, info_of_dist-reordered g ns g.public_key seeds)
