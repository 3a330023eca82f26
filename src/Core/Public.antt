-- ===== src/Core/Public.antt =====
-- core/drand_public.go: the calls of other nodes and of clients, and their guards. A daemon without a
-- beacon has no store. The number of sends that a stream takes is an argument, and so are the beacons that
-- are stored after the callback was registered.
use drand.Prelude.{
  ℕ, ◌-◌, Bool, true, false, not, ◌&&◌, Option, none, some, List, [], ◌++◌, length, leb, ◌==◌,
  if◌then◌else◌, Result, ok, err, Bytes,
}
use drand.Prelude.Int.{ℤ}
use drand.Chain.Block.{Beacon}
use drand.Chain.Info.{ChainInfoPacket, info_to_proto, new_chain_info}
use drand.Store.{Store, StoreError}
use drand.Boltdb.{Bucket, Json, last, get, seek, walk}
use drand.Beacon.Sync.Server.{SyncError, send_all, serve_chain}
use drand.Beacon.Cache.{PartialBeaconPacket}
use drand.Beacon.Handler.{Handler, HandlerError, process_partial_beacon}
use drand.Chain.Crypto.{Crypto}
use drand.Entropy.{get_random}
use drand.Key.Suite.{Suite}
use drand.Key.Wire.{IdentityPacket, identity_to_proto}
use drand.Core.Setup.{SetupError, SetupManager, SignalDkgPacket, received_key}
use drand.Core.Setup.Receiver.{ReceiverError, SetupReceiver, DkgInfoPacket, push_dkg_info}
use drand.Core.Daemon.{Drand}

pub data PublicError : Type 0 where
  no_dkg_running not_started no_dkg_group no_manager no_receiver stream_failed : PublicError
  private_disabled invalid_ecies invalid_client_key no_randomness not_encrypted : PublicError
  not_retrieved : StoreError → PublicError
  setup_refused : SetupError → PublicError
  push_refused : ReceiverError → PublicError

module _ (bolt : Bucket) (json : Json) where
  -- PublicRand: the beacon that beaconToProto then copies, the last one for round 0
  unfoldable pub retrieved : Result StoreError Beacon → Result PublicError Beacon
  retrieved (ok b) = ok b
  retrieved (err e) = err (not_retrieved e)

  unfoldable pub public_beacon : Option bolt.Db → ℕ → Result PublicError Beacon
  unfolding retrieved
  public_beacon none round = err not_started
  public_beacon (some db) round =
      if round == 0 then retrieved (last bolt json db) else retrieved (get bolt json db round)

  -- PublicRandStream, from the last beacon on: those stored from the round asked for, and then the new
  -- ones; a send that fails ends it, and it is ok while it is open.
  unfoldable pub stream_new :
      ℕ → List Beacon × Bool → List Beacon → List Beacon × Result PublicError (Unit {0})
  unfolding send_all
  stream_new room (sent, false) news = (sent, err stream_failed)
  stream_new room (sent, true) news =
      let (more, done) = send_all (room - length sent) news in
      (sent ++ more, if done then ok tt else err stream_failed)

  unfoldable pub stream_from :
      bolt.Db
      → ℕ
      → ℕ
      → List Beacon
      → Result StoreError Beacon
      → List Beacon × Result PublicError (Unit {0})
  unfolding stream_new
  stream_from db room round news (err e) = ([], err (not_retrieved e))
  stream_from db room round news (ok l) =
      if not (round == 0) && leb round l.round
      then stream_new room (send_all room (walk bolt json (seek bolt json db round))) news
      else stream_new room ([], true) news

  unfoldable pub public_rand_stream :
      Option bolt.Db → ℕ → ℕ → List Beacon → List Beacon × Result PublicError (Unit {0})
  unfolding stream_from
  public_rand_stream none room round news = ([], err not_started)
  public_rand_stream (some db) room round news = stream_from db room round news (last bolt json db)

  -- SyncChain; without a beacon nothing is sent, and the call ends well with no callback.
  unfoldable pub sync_chain_call : Option bolt.Db → ℕ → ℕ → List Beacon × Result SyncError Bool
  unfolding serve_chain
  sync_chain_call none room from_round = ([], ok false)
  sync_chain_call (some db) room from_round = serve_chain bolt json db room from_round

-- PartialBeacon, with the handler of the daemon
module _ (S : Store) (k : Crypto) where
  unfoldable pub partial_beacon_call :
      Option (Handler S k)
      → ℤ
      → Bytes
      → PartialBeaconPacket
      → Result PublicError (Handler S k × Option HandlerError)
  unfolding process_partial_beacon
  partial_beacon_call none now addr p = err not_started
  partial_beacon_call (some h) now addr p = ok (process_partial_beacon S k h now addr p)

abbrev private_rand_length : ℕ
private_rand_length = 32

-- PrivateRand: whether it is enabled, ECIES under the node's key and a client's, none for its errors, the
-- request, and what the system's generator gives
module _ (K : Suite) (decrypt : Bytes → Option Bytes)
    (encrypt : K.Point → Bytes → Option Bytes) where
  unfoldable pub encrypted : Bytes → Option K.Point → Result PublicError Bytes
  encrypted randomness none = err invalid_client_key
  encrypted randomness (some client_key) =
      if not (length randomness == private_rand_length)
      then err no_randomness
      else elim (encrypt client_key randomness) [ none ↦ err not_encrypted | some obj ↦ ok obj ]

  unfoldable pub private_rand : Bool → Bytes → Bytes → Result PublicError Bytes
  unfolding encrypted get_random
  private_rand enabled request system =
      if not enabled then err private_disabled else elim (decrypt request) [
        | none ↦ err invalid_ecies
        | some msg ↦ encrypted (get_random none system private_rand_length) (K.unmarshal msg)
      ]

module _ (K : Suite) (sha256 : Bytes → Bytes) where
  -- BroadcastDKG: the first packet starts the phaser; the packet goes to the board.
  unfoldable pub broadcast_started : Drand K → Result PublicError (Drand K × Bool)
  broadcast_started d = elim d.dkg_info [
    | none ↦ err no_dkg_running
    | some (id, info) ↦
        ok (record d { dkg_info = some (id, record info { started = true }) }, not info.started)
  ]

  -- ChainInfo; a group without a key panics, and gives none.
  unfoldable pub chain_info_call : Drand K → Result PublicError (Option ChainInfoPacket)
  unfolding new_chain_info info_to_proto
  chain_info_call d = elim d.group [
    | none ↦ err no_dkg_group
    | some g ↦ elim (new_chain_info K sha256 g) [
      | none ↦ ok none
      | some i ↦ ok (some (info_to_proto K sha256 i))
    ]
  ]

  -- SignalDKGParticipant, with the manager of the daemon
  unfoldable pub signal_dkg_participant :
      Option (SetupManager K) → Bytes → SignalDkgPacket → Result PublicError (SetupManager K)
  unfolding received_key
  signal_dkg_participant none addr p = err no_manager
  signal_dkg_participant (some m) addr p = elim (received_key K sha256 m addr p) [
    | err e ↦ err (setup_refused e)
    | ok m' ↦ ok m'
  ]

  -- PushDKGInfo, with the receiver of the daemon
  unfoldable pub push_dkg_info_call :
      (K.Point → Bytes → Bytes → Bool)
      → Option (SetupReceiver K)
      → DkgInfoPacket
      → Result PublicError (SetupReceiver K)
  unfolding push_dkg_info
  push_dkg_info_call dkg_verify none p = err no_receiver
  push_dkg_info_call dkg_verify (some r) p = elim (push_dkg_info K sha256 dkg_verify r p) [
    | err e ↦ err (push_refused e)
    | ok r' ↦ ok r'
  ]

  -- GetIdentity
  unfoldable pub get_identity : Drand K → IdentityPacket
  unfolding identity_to_proto
  get_identity d = identity_to_proto K d.own
