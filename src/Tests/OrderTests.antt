-- ===== src/Tests/OrderTests.antt =====
-- The order of the nodes of a group, at a group of two nodes that has its distributed key.
use drand.Prelude.{◌≡◌, some, [], ◌∷◌, List, Perm}
use drand.Prelude.Int.{pos}
use drand.Prelude.Sorting.{sort_by}
use drand.Chain.Encoding.{lt_bytes}
use drand.Key.Node.{Node}
use drand.Key.Group.{Group, group_hash, get_genesis_seed, new_group}
use drand.Key.Group.Order.{reordered}
use drand.Key.Group.Numbered.{new_group-HasDistinctIndices}
use drand.Chain.Info.{new_chain_info}
use drand.Chain.Info.Order.{new_chain_info-reordered}
use drand.Tests.SetupTests.{numbers, leader, joiner}
use mathlib.Core.List.Perm

abbrev keyed_group : Group numbers
keyed_group =
    record (new_group numbers (joiner ∷ leader ∷ []) 2 (pos 1600000000) (pos 30000000000) (pos 0)) {
      public_key = some (record { coefficients = 3 ∷ 4 ∷ [] });
    }

abbrev turned_nodes : List (Node numbers)
turned_nodes =
    record { identity = joiner; index = 1 } ∷ record { identity = leader; index = 0 } ∷ []

turned_Perm : Perm keyed_group.nodes turned_nodes
unfolding new_group sort_by lt_bytes
turned_Perm = Perm.swap _ _ _

new_chain_info-reordered_example :
    ((group_hash numbers keyed_group).0
      ≡ (group_hash numbers (reordered numbers keyed_group turned_nodes)).0)
    × ((get_genesis_seed numbers keyed_group).0
        ≡ (get_genesis_seed numbers (reordered numbers keyed_group turned_nodes)).0)
    × (new_chain_info numbers (λ b. b) keyed_group
        ≡ new_chain_info numbers (λ b. b) (reordered numbers keyed_group turned_nodes))
new_chain_info-reordered_example =
    new_chain_info-reordered numbers (λ b. b) keyed_group turned_nodes turned_Perm
      (new_group-HasDistinctIndices numbers (joiner ∷ leader ∷ []) 2 (pos 1600000000)
        (pos 30000000000) (pos 0))
