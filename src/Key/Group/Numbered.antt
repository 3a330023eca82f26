-- ===== src/Key/Group/Numbered.antt =====
-- key/group.go, NewGroup: the nodes of a new group are numbered apart.
use drand.Prelude.{ℕ, suc, ◌<◌, ◌≢◌, List, [], ◌∷◌, All, arith}
use drand.Prelude.Int.{ℤ}
use drand.Prelude.Sorting.Distinct.{IsDistinct, IsDistinct-nil, IsDistinct-cons}
use drand.Key.Suite.{Suite}
use drand.Key.Identity.{Identity}
use drand.Key.Node.{Node}
use drand.Key.Group.{number_from, copy_and_sort, new_group}
use drand.Key.Group.Order.{HasDistinctIndices}

module _ (K : Suite) where
  number_from_above :
      (low n : ℕ) (is : List (Identity K))
      → low < n
      → All (λ (m : Node K). low ≢ m.index) (number_from K n is)
  unfolding number_from
  number_from_above low n [] h = tt
  number_from_above low n (i ∷ is) h =
      (λ e. omega arith, number_from_above low (suc n) is (omega arith))

  number_from-IsDistinct :
      (n : ℕ) (is : List (Identity K)) → IsDistinct (λ (m : Node K). m.index) (number_from K n is)
  unfolding number_from
  number_from-IsDistinct n [] = IsDistinct-nil (λ (m : Node K). m.index)
  number_from-IsDistinct n (i ∷ is) =
      IsDistinct-cons (λ (m : Node K). m.index) _ _ (number_from_above n (suc n) is (omega arith))
        (number_from-IsDistinct (suc n) is)

  pub new_group-HasDistinctIndices :
      (list : List (Identity K)) (threshold : ℕ) (genesis period catchup : ℤ)
      → HasDistinctIndices K (new_group K list threshold genesis period catchup)
  unfolding new_group copy_and_sort
  new_group-HasDistinctIndices list threshold genesis period catchup = number_from-IsDistinct 0 _
