-- ===== src/Core/Commands.antt =====
-- core/drand.go, core/drand_control.go: how a daemon is loaded, how its beacon starts and stops, and the
-- calls that read its files. Whether the gateways start, the database opens and takes the first beacon are
-- arguments.
pub mod Restored
pub mod Steps
pub mod Complete
use drand.Prelude.{
  ℕ, ◌%◌, ◌^◌, ◌*◌, Bool, true, false, not, ◌&&◌, Option, none, some, [], ◌==◌, if◌then◌else◌,
  Result, ok, err, Bytes, bytes_equal,
}
use drand.Prelude.Int.{ℤ, pos, eq_ℤ}
use drand.Prelude.Words.{to_uint64}
use drand.Chain.Encoding.{big_endian}
use drand.Chain.Info.{ChainInfo, info_hash}
use drand.Key.Suite.{Suite}
use drand.Key.Identity.{Pair}
use drand.Key.Node.{Node}
use drand.Key.Group.{Group, find}
use drand.Key.Store.{FileError, FileStore, load_key_pair, load_group, load_share}
use drand.Core.Daemon.{Drand}

pub data StartError : Type 0 where
  no_certificate no_gateway no_store not_a_member bad_configuration not_taken : StartError
  -- a nil pointer is followed
  nil_group : StartError
  bad_file : FileError → StartError
  no_peer_info bad_hash_hex other_chain : StartError

-- How StartBeacon starts it
pub data StartMode : Type 0 where
  catching_up from_genesis : StartMode

module _ (K : Suite) where
  abbrev pub new_drand : Pair K → Drand K
  new_drand priv = record {
    key = priv.key;
    own = priv.public;
    index = 0;
    group = none;
    share = none;
    dkg_done = false;
    manager = none;
    receiver = none;
    dkg_info = none;
    has_beacon = false;
    syncing = false;
    stopped_managers = [];
    stopped_receivers = [];
    stopped_boards = [];
  }

  -- initDrand, with whether it is insecure and has both paths; a bad self signature is only logged.
  unfoldable pub init_drand : Bool → Bool → Bool → FileStore → Result StartError (Drand K)
  init_drand insecure has_paths serves files =
      if not insecure && not has_paths then err no_certificate else elim (load_key_pair K files) [
        | err e ↦ err (bad_file e)
        | ok p ↦ if serves then ok (new_drand p) else err no_gateway
      ]

  -- LoadDrand: the group first, then the share
  unfoldable pub restore : Drand K → FileStore → Result StartError (Drand K)
  restore d files = elim (load_group K files) [
    | err e ↦ err (bad_file e)
    | ok g ↦ elim (load_share K files) [
      | err e ↦ err (bad_file e)
      | ok s ↦ ok (record d { group = some g; share = some s; dkg_done = true })
    ]
  ]

  unfoldable pub load_drand : Bool → Bool → Bool → FileStore → Result StartError (Drand K)
  unfolding init_drand restore
  load_drand insecure has_paths serves files = elim (init_drand insecure has_paths serves files) [
    | err e ↦ err e
    | ok d ↦ restore d files
  ]

  -- newBeacon, with the guards of NewHandler
  unfoldable pub with_node :
      Drand K → Bool → Option (Node K) → Drand K × Result StartError (Unit {0})
  with_node d takes none = (d, err not_a_member)
  with_node d takes (some node) = elim d.share [
    | none ↦ (d, err bad_configuration)
    | some s ↦
        if takes
        then (record d { has_beacon = true; syncing = false }, ok tt)
        else (d, err not_taken)
  ]

  unfoldable pub new_beacon : Drand K → Bool → Bool → Drand K × Result StartError (Unit {0})
  unfolding with_node
  new_beacon d opens takes =
      if not opens
      then (d, err no_store)
      else elim d.group [ none ↦ (d, err nil_group) | some g ↦ with_node d takes (find K g d.own) ]

  unfoldable pub start_beacon : Drand K → Bool → Bool → Bool → Drand K × Option StartMode
  unfolding new_beacon
  start_beacon d opens takes catchup =
      let (d', made) = new_beacon d opens takes in
      elim made [
        | err e ↦ (d', none)
        | ok _ ↦ (d', some (if catchup then catching_up else from_genesis))
      ]

  unfoldable pub stop_beacon : Drand K → Drand K
  stop_beacon d = if not d.has_beacon then d else record d { has_beacon = false }

  -- Share, PublicKey and PrivateKey
  unfoldable pub share_call : FileStore → Result FileError (ℕ × Bytes)
  share_call files = elim (load_share K files) [
    | err e ↦ err e
    | ok s ↦ ok (s.index % 2 ^ 32, K.marshal_scalar s.value)
  ]

  unfoldable pub public_key_call : FileStore → Result FileError Bytes
  public_key_call files = elim (load_key_pair K files) [
    | err e ↦ err e
    | ok p ↦ ok (K.marshal p.public.key)
  ]

  unfoldable pub private_key_call : FileStore → Result FileError Bytes
  private_key_call files = elim (load_key_pair K files) [
    | err e ↦ err e
    | ok p ↦ ok (K.marshal_scalar p.key)
  ]

  module _ (sha256 : Bytes → Bytes) where
    -- getNonce
    unfoldable pub get_nonce : Group K → Bytes
    get_nonce g =
        if eq_ℤ g.transition_time (pos 0)
        then sha256 (big_endian 8 (to_uint64 g.genesis_time))
        else sha256 (big_endian 8 (to_uint64 g.transition_time))

    -- StartFollowChain: the information that the peers gave, and the hash that is asked for, none if it is
    -- no hexadecimal string
    unfoldable pub followed_info :
        Option (ChainInfo K sha256) → Option Bytes → Result StartError (ChainInfo K sha256)
    followed_info none hash = err no_peer_info
    followed_info (some info) none = err bad_hash_hex
    followed_info (some info) (some hash) =
        if bytes_equal (info_hash K sha256 info) hash then ok info else err other_chain

  -- StartFollowChain, at its end
  unfoldable pub end_follow : Drand K → Drand K
  end_follow d = record d { syncing = false }

-- extractEntropy: the script, if any, and whether only its output is used
unfoldable pub extract_entropy : Option (Bytes × Bool) → Option Bytes × Bool
extract_entropy none = (none, false)
extract_entropy (some (script, user_only)) = (some script, user_only)

-- getPhaser: the time of a phase in nanoseconds
unfoldable pub phase_time : ℕ → ℤ
phase_time timeout = if timeout == 0 then pos 10_000_000_000 else pos (timeout * 1_000_000_000)
