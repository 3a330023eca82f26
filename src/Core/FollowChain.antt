-- ===== src/Core/FollowChain.antt =====
-- StartFollowChain and sendProgressCallback of core/drand_control.go: a daemon follows a chain that it
-- takes no part in. The callback store stands right over the database here, and its one callback is that
-- of the progress. What the peers answer, whether the database opens, and the clock are arguments; the
-- points of the chain's information are those of the scheme by `to_point`.
pub mod Verified
pub mod Asked
use drand.Prelude.{
  ℕ, Bool, true, false, not, ◌&&◌, Option, none, some, List, [], ◌∷◌, ◌++◌, ltb, ◌==◌,
  if◌then◌else◌, Result, ok, err, Bytes,
}
use drand.Prelude.Int.{ℤ}
use drand.Chain.Block.{Beacon, genesis_beacon}
use drand.Chain.Crypto.{Crypto}
use drand.Chain.Info.{ChainInfo, ChainInfoPacket, chain_info_from_peers}
use drand.Chain.Time.{current_round}
use drand.Store.{Store, StoreError}
use drand.Beacon.Sync.{SyncError, SyncStore, Syncer, follow}
use drand.Key.Suite.{Suite}
use drand.Core.Daemon.{Drand, DaemonError, begin_follow}
use drand.Core.Commands.{StartError, followed_info, end_follow}

pub data FollowError : Type 0 where
  not_begun : DaemonError → FollowError
  no_chain : StartError → FollowError
  not_opened : FollowError
  no_genesis : StoreError → FollowError
  not_followed : SyncError → FollowError

module _ (S : Store) where
  -- The callback store over the database, with the beacons that its callback is to be called with
  pub record FollowedStore : Type 0 where
    pub store : S.State
    pub new_job : List Beacon

  unfoldable pub followed_put : FollowedStore → Beacon → Result StoreError FollowedStore
  followed_put f b = elim (S.put f.store b) [
    | err e ↦ err e
    | ok s ↦
        ok (record { store = s; new_job = if b.round == 0 then f.new_job else f.new_job ++ b ∷ [] })
  ]

  abbrev pub followed_sync_store : SyncStore
  followed_sync_store = record {
    State = FollowedStore;
    Error = StoreError;
    put = followed_put;
    last = λ f. S.last f.store;
  }

-- What sendProgressCallback sends for a beacon at the time `now`, and whether it closes `done`
unfoldable pub send_progress : ℕ → ℤ → ℤ → ℤ → Beacon → (ℕ × ℕ) × Bool
unfolding current_round
send_progress up_to period genesis now b =
    ((b.round, current_round now period genesis), ltb 0 up_to && (b.round == up_to))

module _ (K : Suite) (sha256 : Bytes → Bytes) (S : Store) (k : Crypto)
    (to_point : K.Point → k.Point) {Peer : Type 0}
    (sync_chain : Peer → ℕ → Option (List Beacon)) where
  abbrev pub syncer_of : ChainInfo K sha256 → S.State → Syncer (followed_sync_store S) k
  syncer_of info s = record {
    store = record { store = s; new_job = [] };
    public_key = to_point info.public_key;
    following = false;
  }

  -- From the genesis beacon on: the database, the beacons that are reported, and the error
  unfoldable pub follow_from :
      ChainInfo K sha256
      → ℕ
      → List Peer
      → S.State
      → Result StoreError S.State
      → FollowedStore S × Result FollowError (Unit {0})
  follow_from info up_to peers db (err e) =
      (record { store = db; new_job = [] }, err (no_genesis e))
  follow_from info up_to peers db (ok s) =
      let (syncer, e) =
        follow (followed_sync_store S) k sync_chain (syncer_of info s) up_to peers in
      (syncer.store, elim e [ none ↦ ok tt | some x ↦ err (not_followed x) ])

  -- With the information on the chain
  unfoldable pub follow_chain :
      Bool
      → ℕ
      → List Peer
      → S.State
      → Result StartError (ChainInfo K sha256)
      → FollowedStore S × Result FollowError (Unit {0})
  unfolding follow_from genesis_beacon
  follow_chain opens up_to peers db (err e) =
      (record { store = db; new_job = [] }, err (no_chain e))
  follow_chain opens up_to peers db (ok info) =
      if not opens
      then (record { store = db; new_job = [] }, err not_opened)
      else follow_from info up_to peers db (S.put db (genesis_beacon info.group_hash))

  unfoldable pub start_follow_chain :
      Drand K
      → List (Option ChainInfoPacket)
      → Option Bytes
      → Bool
      → ℕ
      → List Peer
      → S.State
      → Drand K × FollowedStore S × Result FollowError (Unit {0})
  unfolding begin_follow followed_info chain_info_from_peers follow_chain end_follow
  start_follow_chain d answers hash opens up_to peers db = elim (begin_follow K d).1 [
    | err e ↦ (d, record { store = db; new_job = [] }, err (not_begun e))
    | ok _ ↦
        let (f, r) =
          follow_chain opens up_to peers db
            (followed_info K sha256 (chain_info_from_peers K sha256 answers) hash) in
        (end_follow K (begin_follow K d).0, f, r)
  ]
