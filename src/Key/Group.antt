-- ===== src/Key/Group.antt =====
-- key/group.go: the group of the nodes of a network, and what identifies it. An unset byte slice is
-- none where the code asks for nil.
pub mod Laws
pub mod Numbered
pub mod Order
use drand.Prelude.{
  ℕ, zero, suc, ◌+◌, ◌/◌, Bool, true, false, not, ◌&&◌, Option, none, some, List, [], ◌∷◌, ◌++◌,
  length, map, filter, ltb, ◌==◌, if◌then◌else◌, Bytes, bytes_equal,
}
use drand.Prelude.Int.{ℤ, pos, eq_ℤ}
use drand.Prelude.Words.{to_uint64}
use drand.Prelude.Sorting.{sort_by}
use drand.Key.Suite.{Suite, little_endian}
use drand.Key.Identity.{
  Identity, identity_equal, less_key, valid_signature, DistPublic, dist_hash, dist_equal,
}
use drand.Key.Node.{Node, node_hash, node_equal}

-- MinimumT
unfoldable pub minimum_t : ℕ → ℕ
minimum_t n = n / 2 + 1

-- The first element that passes a test
unfoldable pub find_by {ℓ} : {A : Type ℓ} → (A → Bool) → List A → Option A
find_by p [] = none
find_by p (x ∷ xs) = let later = find_by p xs in if p x then some x else later

module _ (K : Suite) where
  -- Times are int64 seconds, periods int64 nanoseconds.
  pub record Group : Type 0 where
    pub threshold : ℕ
    pub period : ℤ
    pub catchup_period : ℤ
    pub nodes : List (Node K)
    pub genesis_time : ℤ
    pub genesis_seed : Option Bytes
    pub transition_time : ℤ
    pub public_key : Option (DistPublic K)

  -- Group.Find
  unfoldable pub find : Group → Identity K → Option (Node K)
  unfolding find_by identity_equal
  find g p = find_by (λ (n : Node K). identity_equal K n.identity p) g.nodes

  -- Group.Node
  unfoldable pub node_at : Group → ℕ → Option (Node K)
  unfolding find_by
  node_at g i = find_by (λ (n : Node K). n.index == i) g.nodes

  -- DKGNodes
  unfoldable pub dkg_nodes : Group → List (ℕ × K.Point)
  dkg_nodes g = map (λ (n : Node K). (n.index, n.identity.key)) g.nodes

  unfoldable pub points : Group → List K.Point
  points g = map (λ (n : Node K). n.identity.key) g.nodes

  -- The nodes by index, the order that Hash leaves them in
  abbrev pub by_index : List (Node K) → List (Node K)
  by_index ns = sort_by (λ (n m : Node K). ltb n.index m.index) ns

  unfoldable pub hash_nodes : List (Node K) → Bytes
  unfolding node_hash
  hash_nodes [] = []
  hash_nodes (n ∷ ns) = node_hash K n ++ hash_nodes ns

  abbrev pub hash_dist : Option (DistPublic K) → Bytes
  hash_dist none = []
  hash_dist (some d) = dist_hash K d

  abbrev pub hash_transition : ℤ → Bytes
  hash_transition t = if eq_ℤ t (pos 0) then [] else little_endian 8 (to_uint64 t)

  -- Group.Hash: the hash, and the group whose nodes it sorted
  unfoldable pub group_hash : Group → Bytes × Group
  unfolding hash_nodes little_endian
  group_hash g =
      let nodes = by_index g.nodes in
      (
        K.blake2b (
            hash_nodes nodes
            ++ little_endian 4 g.threshold
            ++ little_endian 8 (to_uint64 g.genesis_time)
            ++ hash_transition g.transition_time
            ++ hash_dist g.public_key),
        record g { nodes = nodes },
      )

  -- GetGenesisSeed: the seed, and the group, which holds it from then on
  unfoldable pub seed_or_hash : Group → Option Bytes → Bytes × Group
  unfolding group_hash
  seed_or_hash g (some seed) = (seed, g)
  seed_or_hash g none =
      let (hash, sorted) = group_hash g in (hash, record sorted { genesis_seed = some hash })

  unfoldable pub get_genesis_seed : Group → Bytes × Group
  unfolding seed_or_hash
  get_genesis_seed g = seed_or_hash g g.genesis_seed

  unfoldable pub nodes_equal : List (Node K) → List (Node K) → Bool
  unfolding node_equal
  nodes_equal [] ms = true
  nodes_equal (n ∷ ns) [] = false
  nodes_equal (n ∷ ns) (m ∷ ms) = node_equal K n m && nodes_equal ns ms

  unfoldable pub public_equal : Option (DistPublic K) → Option (DistPublic K) → Bool
  unfolding dist_equal
  public_equal (some d) (some d2) = dist_equal K d d2
  public_equal (some d) none = false
  public_equal none (some d2) = false
  public_equal none none = true

  -- Group.Equal. The strings of two durations are equal when the durations are. The seeds are read
  -- after the lengths are compared, which sorts the nodes of a group without a seed.
  unfoldable pub group_equal : Group → Group → Bool
  unfolding get_genesis_seed nodes_equal public_equal
  group_equal g g2 =
      let (seed, h) = get_genesis_seed g in
      let (seed2, h2) = get_genesis_seed g2 in
      if not (g.threshold == g2.threshold)
      then false
      else if not (eq_ℤ g.period g2.period)
      then false
      else if not (length g.nodes == length g2.nodes)
      then false
      else if not (bytes_equal seed seed2)
      then false
      else if not (eq_ℤ g.transition_time g2.transition_time)
      then false
      else if not (nodes_equal h.nodes h2.nodes)
      then false
      else public_equal g.public_key g2.public_key

  unfoldable pub number_from : ℕ → List (Identity K) → List (Node K)
  number_from n [] = []
  number_from n (i ∷ is) = record { identity = i; index = n } ∷ number_from (suc n) is

  -- copyAndSort
  unfoldable pub copy_and_sort : List (Identity K) → List (Node K)
  unfolding number_from less_key
  copy_and_sort list = number_from 0 (sort_by (less_key K) list)

  -- NewGroup
  unfoldable pub new_group : List (Identity K) → ℕ → ℤ → ℤ → ℤ → Group
  unfolding copy_and_sort
  new_group list threshold genesis period catchup_period = record {
    threshold = threshold;
    period = period;
    catchup_period = catchup_period;
    nodes = copy_and_sort list;
    genesis_time = genesis;
    genesis_seed = none;
    transition_time = pos 0;
    public_key = none;
  }

  -- UnsignedIdentities
  unfoldable pub unsigned_identities : Group → List (Node K)
  unfolding valid_signature
  unsigned_identities g = filter (λ (n : Node K). not (valid_signature K n.identity)) g.nodes
