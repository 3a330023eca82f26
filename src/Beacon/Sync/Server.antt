-- ===== src/Beacon/Sync/Server.antt =====
-- chain/beacon/sync.go: the server side of a sync, SyncChain. It sends the stored beacons from the
-- round asked for, and then registers a callback for those to come. The stream takes a number of
-- sends before it fails.
pub mod Sent
use drand.Prelude.{
  ℕ, zero, suc, ◌+◌, Bool, true, false, List, [], ◌∷◌, ltb, if◌then◌else◌, Result, ok, err, Bytes,
}
use drand.Chain.Block.{Beacon}
use drand.Store.{StoreError}
use drand.Boltdb.{Bucket, Json, last, seek, walk}

pub data SyncError : Type 0 where
  no_last : StoreError → SyncError
  no_beacon_above send_failed : SyncError

-- stream.Send for each beacon; true when all were sent
unfoldable pub send_all : ℕ → List Beacon → List Beacon × Bool
send_all room [] = ([], true)
send_all zero (b ∷ bs) = ([], false)
send_all (suc room) (b ∷ bs) = let (sent, done) = send_all room bs in (b ∷ sent, done)

-- What was sent, and the error or true for the callback registered under the caller's address
unfoldable pub outcome : List Beacon × Bool → List Beacon × Result SyncError Bool
outcome (sent, true) = (sent, ok true)
outcome (sent, false) = (sent, err send_failed)

module _ (bolt : Bucket) (json : Json) where
  -- SyncChain, from the last beacon on
  unfoldable pub serve_from :
      bolt.Db → ℕ → ℕ → Result StoreError Beacon → List Beacon × Result SyncError Bool
  unfolding send_all outcome
  serve_from db room from_round (err e) = ([], err (no_last e))
  serve_from db room from_round (ok last) =
      if ltb last.round from_round
      then ([], err no_beacon_above)
      else outcome (send_all room (walk bolt json (seek bolt json db from_round)))

  -- SyncChain
  unfoldable pub serve_chain : bolt.Db → ℕ → ℕ → List Beacon × Result SyncError Bool
  unfolding serve_from
  serve_chain db room from_round = serve_from db room from_round (last bolt json db)
