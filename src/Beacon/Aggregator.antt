-- ===== src/Beacon/Aggregator.antt =====
-- chain/beacon/chain.go: the loop that turns partial signatures into beacons, as a step for each thing
-- that its `select` receives; and chain/beacon/crypto.go, the keys that it uses.
pub mod Soundness
use drand.Prelude.{
  ℕ, ◌+◌, ◌%◌, ◌^◌, ◌≡◌, Bool, true, false, not, ◌&&◌, Option, none, some, List, [], ◌∷◌, ◌++◌, ltb,
  leb, ◌==◌, if◌then◌else◌, Result, ok, err, Bytes,
}
use drand.Chain.Block.{Beacon}
use drand.Chain.Crypto.{Crypto}
use drand.Store.{Store}
use drand.Beacon.Cache.{
  PartialBeaconPacket, RoundCache, PartialCache, append, get_round_cache, flush_rounds, len,
  partials, msg,
}
use drand.Beacon.Append.{AppendStore, CallbackStore, callback_put}

-- partialCacheStoreLimit
abbrev pub partial_cache_store_limit : ℕ
partial_cache_store_limit = 3

module _ (k : Crypto) where
  -- cryptoStore: the share and the group are replaced together at a resharing, the chain's key never.
  -- Of the group the threshold and the number of nodes are read.
  pub record CryptoStore : Type 0 where
    pub share : k.PriShare
    pub poly : k.PubPoly
    pub threshold : ℕ
    pub size : ℕ
    pub public_key : k.Point

  -- SignPartial
  unfoldable pub sign_partial : CryptoStore → Bytes → Option Bytes
  sign_partial c msg = k.sign c.share msg

  -- SetInfo
  unfoldable pub set_info : CryptoStore → k.PubPoly → ℕ → ℕ → k.PriShare → CryptoStore
  set_info c poly threshold size share = record c {
    share = share;
    poly = poly;
    threshold = threshold;
    size = size;
  }

module _ (S : Store) (k : Crypto) where
  pub record ChainStore : Type 0 where
    pub crypto : CryptoStore k
    pub last_beacon : Beacon
    pub cache : PartialCache
    pub store : CallbackStore S
    -- catchupBeacons, a channel of one place
    pub catchup_beacons : Option Beacon
    -- the rounds up to which a Follow was launched
    pub follows : List ℕ

  -- shouldSync
  unfoldable pub should_sync : Beacon → Beacon → Bool
  should_sync last new_b = ltb ((last.round + 1) % 2 ^ 64) new_b.round

  -- a send that is dropped when the channel is full
  unfoldable pub send_catchup : ChainStore → Beacon → ChainStore
  send_catchup c new_b = record c {
    catchup_beacons = elim c.catchup_beacons [ none ↦ some new_b | some old ↦ some old ];
  }

  -- tryAppend
  unfoldable pub try_append : ChainStore → Beacon → Beacon → ChainStore × Bool
  unfolding send_catchup
  try_append c last new_b =
      if not ((last.round + 1) % 2 ^ 64 == new_b.round)
      then (c, false)
      else (elim (callback_put S c.store new_b) [
        | err e ↦ (c, false)
        | ok store ↦ (send_catchup (record c { store = store }) new_b, true)
      ])

  -- What follows tryAppend.
  unfoldable pub after_append : Beacon → ChainStore × Bool → ChainStore
  after_append new_b (c, true) = record c { last_beacon = new_b }
  after_append new_b (c, false) =
      if should_sync c.last_beacon new_b
      then record c { follows = c.follows ++ new_b.round ∷ [] }
      else c

  -- From a recovered signature on: VerifyRecovered, FlushRounds and tryAppend.
  unfoldable pub with_signature :
      ChainStore → PartialBeaconPacket → RoundCache → Option Bytes → ChainStore
  with_signature c p r none = c
  with_signature c p r (some final_sig) =
      if not (k.verify_recovered (k.commit c.crypto.poly) (msg k r) final_sig)
      then c
      else (let flushed = record c { cache = flush_rounds c.cache p.round } in
          let new_beacon =
            let b : Beacon = record {
              previous_sig = r.prev;
              round = r.round;
              signature = final_sig;
            } in
            b in
          after_append new_beacon (try_append flushed c.last_beacon new_beacon))

  -- From the round cache on: the threshold and Recover.
  unfoldable pub with_round_cache :
      ChainStore → PartialBeaconPacket → Option RoundCache → ChainStore
  with_round_cache c p none = c
  with_round_cache c p (some r) =
      if ltb (len r) c.crypto.threshold
      then c
      else with_signature c p r
          (k.recover c.crypto.poly (msg k r) (partials r) c.crypto.threshold c.crypto.size)

  -- case partial := <-c.newPartials
  unfoldable pub new_partial : ChainStore → PartialBeaconPacket → ChainStore
  new_partial c p =
      let is_not_in_past = ltb c.last_beacon.round p.round in
      let is_not_too_far =
        leb p.round ((c.last_beacon.round + (partial_cache_store_limit + 1)) % 2 ^ 64) in
      if not (is_not_in_past && is_not_too_far)
      then c
      else (let c' = record c { cache = append k c.cache p } in
          with_round_cache c' p (get_round_cache c'.cache p.round p.previous_sig))

  -- case lastBeacon = <-c.beaconStoredAgg
  unfoldable pub beacon_stored : ChainStore → Beacon → ChainStore
  beacon_stored c b = record c { last_beacon = b; cache = flush_rounds c.cache b.round }
