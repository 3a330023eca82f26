-- ===== src/Core/Setup/Receiver.antt =====
-- core/group_setup.go: a node that waits for the group of the leader. The signature scheme of the key
-- generation is a parameter, as is SHA-256.
pub mod Accepts
use drand.Prelude.{
  ℕ, Bool, true, false, not, Option, none, some, List, [], ◌∷◌, ◌++◌, if◌then◌else◌, Result, ok,
  err, Bytes,
}
use drand.Key.Suite.{Suite}
use drand.Key.Identity.{KeyError, Identity}
use drand.Key.Group.{Group, group_hash}
use drand.Key.Wire.{IdentityPacket, GroupPacket, WireError, identity_from_proto, group_from_proto}
use drand.Core.Setup.{SetupInfoPacket, correct_secret}

pub data ReceiverError : Type 0 where
  no_identity invalid_leader invalid_secret invalid_group_sig unable_to_fetch wait_group_timeout
        context_done :
      ReceiverError
  invalid_group : WireError → ReceiverError

pub record DkgInfoPacket : Type 0 where
  pub new_group : GroupPacket
  pub secret_proof : Bytes
  pub dkg_timeout : ℕ
  pub signature : Bytes

module _ (K : Suite) where
  pub record DkgGroup : Type 0 where
    pub group : Group K
    pub timeout : ℕ

  -- setupReceiver: a send waits while the channel holds a group; the list is the order of the sends.
  pub record SetupReceiver : Type 0 where
    pub leader_id : Identity K
    pub secret : Bytes
    pub ch : List DkgGroup
    pub done : Bool

  module _ (sha256 : Bytes → Bytes) (dkg_verify : K.Point → Bytes → Bytes → Bool) where
    -- newSetupReceiver, with what the leader answers to GetIdentity
    unfoldable pub receiver_of :
        SetupInfoPacket → Result KeyError (Identity K) → Result ReceiverError SetupReceiver
    receiver_of p (err e) = err invalid_leader
    receiver_of p (ok id) =
        ok (record { leader_id = id; secret = sha256 p.secret; ch = []; done = false })

    unfoldable pub new_setup_receiver :
        SetupInfoPacket → Option IdentityPacket → Result ReceiverError SetupReceiver
    unfolding receiver_of identity_from_proto
    new_setup_receiver p none = err no_identity
    new_setup_receiver p (some id) = receiver_of p (identity_from_proto K id)

    -- PushDKGInfo; Hash leaves the nodes of the group in the order of their indices.
    unfoldable pub with_group :
        SetupReceiver
        → DkgInfoPacket
        → Result WireError (Group K)
        → Result ReceiverError SetupReceiver
    unfolding group_hash
    with_group r pg (err e) = err (invalid_group e)
    with_group r pg (ok group) =
        let id = r.leader_id in
        let (hash, sorted) = group_hash K group in
        if not (dkg_verify id.key hash pg.signature)
        then err invalid_group_sig
        else ok (record r { ch = r.ch ++ record { group = sorted; timeout = pg.dkg_timeout } ∷ [] })

    unfoldable pub push_dkg_info :
        SetupReceiver → DkgInfoPacket → Result ReceiverError SetupReceiver
    unfolding with_group correct_secret group_from_proto
    push_dkg_info r pg =
        if not (correct_secret K sha256 r.secret pg.secret_proof)
        then err invalid_secret
        else with_group r pg (group_from_proto K pg.new_group)

  -- WaitDKGInfo: the case of the select that came first. A closed channel gives nothing.
  pub data WaitCase : Type 0 where
    from_channel after_max_wait context_is_done : WaitCase

  unfoldable pub wait_dkg_info : SetupReceiver → WaitCase → Result ReceiverError (Group K × ℕ)
  wait_dkg_info r from_channel = elim r.ch [
    | [] ↦ err unable_to_fetch
    | d ∷ rest ↦ ok (d.group, d.timeout)
  ]
  wait_dkg_info r after_max_wait = err wait_group_timeout
  wait_dkg_info r context_is_done = err context_done

  -- stop
  unfoldable pub stop : SetupReceiver → SetupReceiver
  stop r = if r.done then r else record r { done = true }
