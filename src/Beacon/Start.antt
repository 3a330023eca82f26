-- ===== src/Beacon/Start.antt =====
-- NewHandler of chain/beacon/node.go, with newChainStore of chain.go and newCryptoStore of crypto.go: how
-- a handler starts on a database. Whether the node is found in its group is an argument.

pub mod Sound
pub mod Runs
pub mod Started
use drand.Prelude.{
  ℕ, Bool, true, false, not, Option, none, some, List, [], ◌∷◌, Result, ok, err, Bytes, length,
  if◌then◌else◌,
}
use drand.Prelude.Int.{ℤ, pos}
use drand.Chain.Block.{Beacon, genesis_beacon}
use drand.Chain.Crypto.{Crypto}
use drand.Store.{Store, StoreError}
use drand.Beacon.Cache.{new_partial_cache}
use drand.Beacon.Append.{CallbackStore, new_append_store, new_callback_store, add_callback}
use drand.Beacon.Aggregator.{ChainStore, CryptoStore}
use drand.Beacon.Handler.{Handler}

pub data NewHandlerError : Type 0 where
  invalid_configuration not_included : NewHandlerError
  genesis_not_stored : StoreError → NewHandlerError
  -- the aggregator cannot load the last beacon and ends the process
  last_not_loaded : StoreError → NewHandlerError

-- The id "chainstore" of a callback
abbrev pub chainstore_id : Bytes
chainstore_id = 99 ∷ 104 ∷ 97 ∷ 105 ∷ 110 ∷ 115 ∷ 116 ∷ 111 ∷ 114 ∷ 101 ∷ []

module _ (S : Store) (k : Crypto) where
  -- Config: the own address, and what is read of its Group and its Share
  pub record ConfigGroup : Type 0 where
    pub period : ℤ
    pub genesis_time : ℤ
    pub transition_time : ℤ
    pub threshold : ℕ
    pub addresses : List Bytes
    pub genesis_seed : Bytes
    -- PublicKey.PubPoly() and PublicKey.Key()
    pub poly : k.PubPoly
    pub key : k.Point

  pub record ConfigShare : Type 0 where
    pub share : k.PriShare
    pub index : ℤ

  -- newCryptoStore
  unfoldable pub new_crypto_store : ConfigGroup → ConfigShare → CryptoStore k
  new_crypto_store g s = record {
    share = s.share;
    poly = g.poly;
    threshold = g.threshold;
    size = length g.addresses;
    public_key = g.key;
  }

  -- newChainStore, with the start of runAggregator
  unfoldable pub new_chain_store : CryptoStore k → S.State → Result StoreError (ChainStore S k)
  unfolding new_append_store new_callback_store new_partial_cache add_callback
  new_chain_store c s = elim (S.last s) [
    | err e ↦ err e
    | ok last_beacon ↦ ok (record {
      crypto = c;
      last_beacon = last_beacon;
      cache = new_partial_cache;
      store = add_callback S (new_callback_store S (new_append_store S s)) chainstore_id;
      catchup_beacons = none;
      follows = [];
    })
  ]

  abbrev pub handler_of : Bytes → ConfigGroup → ConfigShare → ChainStore S k → Handler S k
  handler_of addr g s chain = record {
    period = g.period;
    genesis_time = g.genesis_time;
    transition_time = g.transition_time;
    addr = addr;
    index = s.index;
    nodes = g.addresses;
    chain = chain;
    new_partials = [];
    current = record { round = 0; time = pos 0 };
    sent = [];
    sleeping = [];
    runs = [];
    run_syncs = [];
    transition = none;
    stopped = false;
    fatal = false;
  }

  -- NewHandler, from the put of the genesis beacon on
  unfoldable pub with_genesis :
      Bytes
      → ConfigGroup
      → ConfigShare
      → Result StoreError S.State
      → Result NewHandlerError (Handler S k)
  unfolding new_chain_store new_crypto_store
  with_genesis addr g s (err e) = err (genesis_not_stored e)
  with_genesis addr g s (ok db) = elim (new_chain_store (new_crypto_store g s) db) [
    | err e ↦ err (last_not_loaded e)
    | ok chain ↦ ok (handler_of addr g s chain)
  ]

  unfoldable pub new_handler :
      Bytes
      → Bool
      → Option ConfigGroup
      → Option ConfigShare
      → S.State
      → Result NewHandlerError (Handler S k)
  unfolding with_genesis genesis_beacon
  new_handler addr is_found none share db = err invalid_configuration
  new_handler addr is_found (some g) none db = err invalid_configuration
  new_handler addr is_found (some g) (some s) db =
      if not is_found
      then err not_included
      else with_genesis addr g s (S.put db (genesis_beacon g.genesis_seed))
