-- ===== src/Key/Group/Laws.antt =====
-- key/group.go: the order of the nodes, and the seed.
use drand.Prelude.{ℕ, suc, ◌≡◌, refl, ap, ◌∙◌, List, [], ◌∷◌, length, Option, none, some, Bytes}
use drand.Prelude.Sorting.{length-sort_by}
use drand.Key.Suite.{Suite}
use drand.Key.Identity.{Identity, less_key}
use drand.Key.Group.{Group, number_from, copy_and_sort, group_hash, seed_or_hash, get_genesis_seed}

module _ (K : Suite) where
  length-number_from : (n : ℕ) (is : List (Identity K)) → length (number_from K n is) ≡ length is
  unfolding number_from
  length-number_from n [] = refl
  length-number_from n (i ∷ is) = ap suc (length-number_from (suc n) is)

  pub length-copy_and_sort : (is : List (Identity K)) → length (copy_and_sort K is) ≡ length is
  unfolding copy_and_sort
  length-copy_and_sort is = length-number_from 0 _ ∙ length-sort_by (less_key K) is

  -- Reading the seed loses no node, and leaves the threshold.
  seed_or_hash-sized :
      (g : Group K) (o : Option Bytes)
      → let g' = (seed_or_hash K g o).1 in
        (length g'.nodes ≡ length g.nodes) × (g'.threshold ≡ g.threshold)
  unfolding seed_or_hash group_hash
  seed_or_hash-sized g (some seed) = (refl, refl)
  seed_or_hash-sized g none = (length-sort_by _ g.nodes, refl)

  pub get_genesis_seed-sized :
      (g : Group K)
      → let g' = (get_genesis_seed K g).1 in
        (length g'.nodes ≡ length g.nodes) × (g'.threshold ≡ g.threshold)
  unfolding get_genesis_seed
  get_genesis_seed-sized g = seed_or_hash-sized g g.genesis_seed
