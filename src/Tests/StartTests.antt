-- ===== src/Tests/StartTests.antt =====
-- A handler that starts on an empty database, takes a partial from another node and follows a peer.
use drand.Prelude.{◌≡◌, refl, inl, true, none, some, [], ◌∷◌, arith, ok}
use drand.Prelude.Int.{pos}
use drand.Chain.Block.{genesis_beacon}
use drand.Chain.Time.Rounds.{seconds}
use drand.Store.{OrderedStore, no_beacon_saved}
use drand.Boltdb.Ordered.{ordered_bolt_store}
use drand.Boltdb
use drand.Prelude.Assoc.{insert}
use drand.Beacon.Aggregator.{ChainStore}
use drand.Beacon.Handler.{Handler, process_partial_beacon, take_partial}
use drand.Beacon.Handler.Steps.{receives, takes}
use drand.Beacon.Start.{ConfigGroup, ConfigShare, handler_of, new_handler, chainstore_id}
use drand.Beacon.Start.Runs.{begins, steps, syncs, IsGrown}
use drand.Beacon.Start.Started.{IsStarted, new_handler-IsGrown}
use drand.Beacon.Sync.{chain_sync_store, receive}
use drand.Tests.Data.{toy}
use drand.Tests.Bucket.{shelf_bucket, framed}
use drand.Tests.BeaconTests.{genesis, first_beacon, first_partial}
use drand.Tests.ChainTests.{nothing_stored, stored_in, nothing_stored-IsValid}

abbrev disk : OrderedStore
disk = ordered_bolt_store shelf_bucket framed

abbrev pair : ConfigGroup disk.base toy
pair = record {
  period = seconds 10;
  genesis_time = pos 1000;
  transition_time = pos 0;
  threshold = 1;
  addresses = (65 ∷ []) ∷ (66 ∷ []) ∷ [];
  genesis_seed = 7 ∷ [];
  poly = tt;
  key = tt;
}

abbrev own_share : ConfigShare disk.base toy
own_share = record { share = 3; index = pos 9 }

abbrev opened : ChainStore disk.base toy
opened = record {
  crypto = record { share = 3; poly = tt; threshold = 1; size = 2; public_key = tt };
  last_beacon = genesis;
  cache = record { rounds = []; rcvd = [] };
  store = record {
    inner = record { store = stored_in nothing_stored genesis; last = some genesis };
    callbacks = (chainstore_id, tt) ∷ [];
    new_job = [];
  };
  catchup_beacons = none;
  follows = [];
}

abbrev begun : Handler disk.base toy
begun = handler_of disk.base toy (65 ∷ []) pair own_share opened

new_handler_runs :
    new_handler disk.base toy (65 ∷ []) true (some pair) (some own_share) nothing_stored ≡ ok begun
unfolding new_handler genesis_beacon Boltdb.put Boltdb.last insert
new_handler_runs = refl

-- The partial of the other node is received and taken, and a peer sends the first beacon.
abbrev received : Handler disk.base toy
received = (process_partial_beacon disk.base toy begun (pos 1003) (66 ∷ []) first_partial).0

abbrev taken : Handler disk.base toy
taken = take_partial disk.base toy received

abbrev synced : Handler disk.base toy
synced = record taken {
  chain = record taken.chain {
    store =
        (receive (chain_sync_store disk.base) toy taken.chain.crypto.public_key 1
          (first_beacon ∷ []) taken.chain.store).0;
  };
}

new_handler-IsGrown_example :
    IsStarted disk toy (65 ∷ []) pair own_share genesis begun
    × IsGrown disk.base toy begun 0 3 synced
new_handler-IsGrown_example =
    new_handler-IsGrown disk toy (65 ∷ []) pair own_share true nothing_stored genesis begun synced 3
      refl
      (
        nothing_stored-IsValid,
        inl (no_beacon_saved, unfold Boltdb.last in refl, unfold genesis_beacon in refl),
      )
      (omega arith) new_handler_runs
      (syncs (steps (steps begins (receives (pos 1003) (66 ∷ []) first_partial)) takes) 1
        (first_beacon ∷ []))
