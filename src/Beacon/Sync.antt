-- ===== src/Beacon/Sync.antt =====
-- chain/beacon/sync.go: following the chain of other nodes. A peer's SyncChain call is a parameter: an
-- error, or the beacons that its stream delivers before it closes, in their order. A stream that never
-- closes keeps Follow waiting; the model speaks of the streams that do.
pub mod Follow
pub mod Server
use drand.Prelude.{
  ℕ, ◌+◌, ◌%◌, ◌^◌, ◌≡◌, Bool, true, false, not, Option, none, some, List, [], ◌∷◌, ◌==◌,
  if◌then◌else◌, Result, ok, err,
}
use drand.Chain.Block.{Beacon, verify_beacon}
use drand.Chain.Crypto.{Crypto}
use drand.Store.{Store, StoreError}
use drand.Beacon.Append.{AppendError, CallbackStore, callback_put}

pub data SyncError : Type 0 where
  already_following all_nodes_tried : SyncError

-- The CallbackStore that a syncer is made with: a handler gives it the callback store over the append
-- store, StartFollowChain one right over the database.
pub record SyncStore : Type 1 where
  pub State : Type 0
  pub Error : Type 0
  pub put : State → Beacon → Result Error State
  pub last : State → Result StoreError Beacon

abbrev pub chain_sync_store : Store → SyncStore
chain_sync_store S = record {
  State = CallbackStore S;
  Error = AppendError;
  put = callback_put S;
  last = λ c. S.last c.inner.store;
}

module _ (S : SyncStore) (k : Crypto) where
  pub record Syncer : Type 0 where
    pub store : S.State
    pub public_key : k.Point
    pub following : Bool

  -- for beaconPacket := range beaconCh. When the stream closes the result is false: a context that is
  -- done has an error.
  unfoldable pub receive : k.Point → ℕ → List Beacon → S.State → S.State × Bool
  receive public_key up_to [] store = (store, false)
  receive public_key up_to (beacon ∷ rest) store = elim (verify_beacon k public_key beacon) [
    | false ↦ (store, false)
    | true ↦ elim (S.put store beacon) [
      | err e ↦ (store, false)
      | ok store' ↦ elim (beacon.round == up_to) [
        | true ↦ (store', true)
        | false ↦ receive public_key up_to rest store'
      ]
    ]
  ]

module _ (S : SyncStore) (k : Crypto) {Peer : Type 0}
    (sync_chain : Peer → ℕ → Option (List Beacon)) where
  -- client.SyncChain, from the round after the last one
  unfoldable pub call_node : Syncer S k → ℕ → Peer → Result StoreError Beacon → Syncer S k × Bool
  call_node s up_to n (err e) = (s, false)
  call_node s up_to n (ok last) = elim (sync_chain n ((last.round + 1) % 2 ^ 64)) [
    | none ↦ (s, false)
    | some beacons ↦
        let (store, done) = receive S k s.public_key up_to beacons s.store in
        (record s { store = store }, done)
  ]

  -- tryNode
  unfoldable pub try_node : Syncer S k → ℕ → Peer → Syncer S k × Bool
  unfolding call_node
  try_node s up_to n = call_node s up_to n (S.last s.store)

  -- The loop over the shuffled nodes.
  unfoldable pub try_nodes : Syncer S k → ℕ → List Peer → Syncer S k × Option SyncError
  try_nodes s up_to [] = (s, some all_nodes_tried)
  try_nodes s up_to (n ∷ nodes) =
      let (s', done) = try_node s up_to n in
      elim done [ true ↦ (s', none) | false ↦ try_nodes s' up_to nodes ]

  -- Follow, with the nodes in the order of rand.Perm
  unfoldable pub follow : Syncer S k → ℕ → List Peer → Syncer S k × Option SyncError
  unfolding try_nodes
  follow s up_to nodes =
      if s.following
      then (s, some already_following)
      else (let (s', e) = try_nodes (record s { following = true }) up_to nodes in
          (record s' { following = false }, e))
