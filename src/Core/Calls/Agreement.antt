-- ===== src/Core/Calls/Agreement.antt =====
-- core/drand_control.go: InitDKG at the leader and at a node that joins its setup.
use drand.Prelude.{
  ℕ, ◌≡◌, refl, sym, ap, ◌∙◌, subst, Bool, true, false, Option, some, [], ◌∷◌, ◌++◌, ok, Bytes,
  Option-cases, inl, inr,
}
use mathlib.Core.Path.{ap₂}
use drand.Prelude.Int.{ℤ, ltb_ℤ}
use mathlib.Core.List.Perm
use drand.Prelude.Sorting.{sort_by-perm}
use drand.Prelude.Sorting.Distinct.{sort_by-twice}
use drand.Key.Suite.{Suite}
use drand.Key.Identity.{share_public}
use drand.Key.Node.{Node}
use drand.Key.Group.{Group, find, by_index, group_hash, get_genesis_seed, seed_or_hash}
use drand.Key.Group.Order.{HasDistinctIndices, group_hash-reordered}
use drand.Key.Wire.{group_to_proto}
use drand.Key.Wire.RoundTrip.{IsSendable}
use drand.Core.Setup.{SetupManager, new_dkg_setup}
use drand.Core.Setup.Receiver.{
  DkgGroup, SetupReceiver, DkgInfoPacket, from_channel, new_setup_receiver, push_dkg_info,
}
use drand.Core.Setup.Receiver.Accepts.{arrived, push_dkg_info-arrived}
use drand.Core.Push.{succeeded, push_group, info_packet}
use drand.Core.Daemon.{Drand, DkgResult, ready, final_group}
use drand.Core.Daemon.Reshare.{receiver_begin}
use drand.Core.Calls.{
  InitDkgPacket, DkgRun, LeaderRun, JoinRun, returned, pushed_group, lead_dkg, join_dkg,
}
use drand.Core.Calls.Finished.{
  IsFinished, waited, lead_dkg-IsFinished, join_dkg-IsFinished, new_setup_receiver-fresh,
}

module _ (K : Suite) where
  -- Two results that agree on the qualified nodes and on the public key
  pub record IsAgreed (r r' : DkgResult K) : Type 0 where
    pub qual : r.qual ≡ r'.qual
    pub public : share_public K r.share ≡ share_public K r'.share

  final_group-IsAgreed :
      (g : Group K) (r r' : DkgResult K) → IsAgreed r r' → final_group K g r ≡ final_group K g r'
  final_group-IsAgreed g r r' a = rw (a.qual, a.public) refl

  module _ (sha256 : Bytes → Bytes) (dkg_sign : Bytes → Option Bytes)
      (dkg_verify : K.Point → Bytes → Bytes → Bool) where
    -- What is pushed of a group arrives as the leader has it from then on.
    pushed_group-arrived :
        (g : Group K) → pushed_group K g ≡ arrived K sha256 dkg_verify (group_hash K g).1
    unfolding pushed_group group_to_proto get_genesis_seed group_hash seed_or_hash
    pushed_group-arrived g = elim (Option-cases g.genesis_seed) [
      | inl unset ↦ rw (unset, seed_or_hash) refl
      | inr (seed, set) ↦
          let sorted = (group_hash K g).1 in
          let pushed : pushed_group K g ≡ sorted = ap (λ o. (seed_or_hash K sorted o).1) set in
          let seeded : (get_genesis_seed K sorted).0 ≡ seed =
            ap (λ o. (seed_or_hash K sorted o).0) set in
          pushed
          ∙ ap₂ (λ s n. record sorted { genesis_seed = s; nodes = n }) (set ∙ sym (ap some seeded))
              (sym (sort_by-twice (λ (n : Node K). n.index) g.nodes))
    ]

    -- A setup whose manager hands on the group, which is pushed under the signature
    pub record IsLed (d : Drand K) (p : InitDkgPacket) (lead : LeaderRun K) (g : Group K)
        (signature : Bytes) : Type 0 where
      pub manager : SetupManager K
      pub made : new_dkg_setup K sha256 d.own p.beacon_period p.catchup_period p.info ≡ ok manager
      pub waits : lead.wait ≡ ready g
      pub signs : dkg_sign (group_hash K g).0 ≡ some signature
      pub pushes :
          (push_group K dkg_sign d.own.addr [] g.nodes 0 g p.info.secret p.info.timeout
            lead.replies).1
          ≡ succeeded

    -- A node that joins in time with a receiver of its own, which takes the packet
    pub record IsJoined (d : Drand K) (p : InitDkgPacket) (join : JoinRun K)
        (packet : DkgInfoPacket) (g : Group K) (receiver : SetupReceiver K) : Type 0 where
      pub made : new_setup_receiver K sha256 dkg_verify p.info join.leader_identity ≡ ok receiver
      pub signaled : join.signaled ≡ true
      pub kept : (join.while_waiting (receiver_begin K d join.id)).receiver ≡ some join.id
      pub takes :
          push_dkg_info K sha256 dkg_verify receiver packet ≡ ok (join.receivers receiver join.id)
      pub case : join.case ≡ from_channel
      pub early : ltb_ℤ g.genesis_time join.now ≡ false
      pub node : Node K
      pub found :
          find K (arrived K sha256 dkg_verify (group_hash K g).1) (waited K d join).own ≡ some node

    -- What the leader's packet leaves in the channel of a fresh receiver
    taken :
        (receiver after : SetupReceiver K) (g : Group K) (secret signature : Bytes) (timeout : ℕ)
        → receiver.ch ≡ []
        → receiver.secret ≡ sha256 secret
        → HasDistinctIndices K g
        → IsSendable K (group_hash K g).1
        → (let id = receiver.leader_id in dkg_verify id.key (group_hash K g).0 signature ≡ true)
        → push_dkg_info K sha256 dkg_verify receiver (info_packet K g secret timeout signature)
          ≡ ok after
        → after.ch
          ≡ record { group = arrived K sha256 dkg_verify (group_hash K g).1; timeout = timeout }
            ∷ []
    unfolding info_packet group_hash
    taken receiver after g secret signature timeout empty same distinct sendable signed takes =
        let id = receiver.leader_id in
        let hash =
          group_hash-reordered K g (by_index K g.nodes) (Perm.symm (sort_by-perm _ g.nodes))
            distinct in
        let arrives =
          push_dkg_info-arrived K sha256 dkg_verify receiver (group_hash K g).1 secret signature
            timeout sendable same (subst (λ h. dkg_verify id.key h signature ≡ true) hash signed) in
        let left : DkgGroup K = record {
          group = arrived K sha256 dkg_verify (group_hash K g).1;
          timeout = timeout;
        } in
        let both = sym arrives ∙ takes in
        let one : record receiver { ch = receiver.ch ++ left ∷ [] } ≡ after = cc in
        ap (λ t. t.ch) (sym one) ∙ ap (λ t. t ++ left ∷ []) empty

    joined_early :
        (g : Group K) (now : ℤ)
        → ltb_ℤ g.genesis_time now ≡ false
        → let sorted = (group_hash K g).1 in ltb_ℤ sorted.genesis_time now ≡ false
    unfolding group_hash
    joined_early g now h = h

    -- When a leader pushes its group to a node that joins its setup, with the secret of the setup, and
    -- both key generations end well and agree on the qualified nodes and the public key: InitDKG returns
    -- the same group packet at both, whatever else their daemons do, but for replacing the key generation
    -- or the receiver. The group is sendable, and its nodes have distinct indices, which those of a setup
    -- have; the receiver knows the key under which the signature of the leader is valid.
    pub lead_dkg-join_dkg :
        (g : Group K) (signature : Bytes)
        → (d : Drand K) (p : InitDkgPacket) (lead : LeaderRun K) (run : DkgRun K) (r : DkgResult K)
        → (d' : Drand K) (p' : InitDkgPacket) (join : JoinRun K) (run' : DkgRun K)
          (r' : DkgResult K) (receiver : SetupReceiver K)
        → HasDistinctIndices K g
        → IsSendable K (group_hash K g).1
        → IsLed d p lead g signature
        → p'.info.secret ≡ p.info.secret
        → (let id = receiver.leader_id in dkg_verify id.key (group_hash K g).0 signature ≡ true)
        → IsJoined d' p' join (info_packet K g p.info.secret p.info.timeout signature) g receiver
        → IsFinished K run r
        → IsFinished K run' r'
        → IsAgreed r r'
        → let packet = (group_to_proto K (final_group K (pushed_group K g) r)).0 in
          ((lead_dkg K sha256 dkg_sign dkg_verify d p lead run).1 ≡ returned packet)
          × ((join_dkg K sha256 dkg_sign dkg_verify d' p' join run').1 ≡ returned packet)
    lead_dkg-join_dkg g signature d p lead run r d' p' join run' r' receiver distinct sendable led
          secret signed j f f' agreed =
        let (empty, same) =
          new_setup_receiver-fresh K sha256 dkg_sign dkg_verify p'.info join.leader_identity
            receiver j.made in
        let channel =
          taken receiver (join.receivers receiver join.id) g p.info.secret signature p.info.timeout
            empty (same ∙ ap sha256 secret) distinct sendable signed j.takes in
        let joined =
          join_dkg-IsFinished K sha256 dkg_sign dkg_verify d' p' join run' receiver
            (arrived K sha256 dkg_verify (group_hash K g).1) p.info.timeout j.node r' j.made
            j.signaled j.kept channel j.case (joined_early g join.now j.early) j.found f' in
        let final =
          ap (λ t. final_group K t r) (pushed_group-arrived g)
          ∙ final_group-IsAgreed (arrived K sha256 dkg_verify (group_hash K g).1) r r' agreed in
        (
          lead_dkg-IsFinished K sha256 dkg_sign dkg_verify d p lead run led.manager g r led.made
              led.waits led.pushes f,
          joined ∙ ap (λ t. returned (group_to_proto K t).0) (sym final),
        )
