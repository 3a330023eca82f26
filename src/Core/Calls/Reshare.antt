-- ===== src/Core/Calls/Reshare.antt =====
-- core/drand_control.go: InitReshare from the old group to its answer, for the leader and for a node that
-- joins. The callback setupCB, which only tests set, is left out.
use drand.Prelude.{
  Bool, true, false, not, ◌&&◌, Option, none, ◌++◌, if◌then◌else◌, Result, ok, err, Bytes,
}
use drand.Prelude.Int.{ℤ}
use drand.Key.Suite.{Suite}
use drand.Key.Group.{Group, group_hash}
use drand.Core.Setup.{InitResharePacket, new_reshare_setup}
use drand.Core.Setup.Receiver.{new_setup_receiver}
use drand.Core.Push.{push_group}
use drand.Core.Daemon.{
  DaemonError, dkg_error, Drand, if_set, wait_dkg, run_resharing_begin, run_resharing_end,
}
use drand.Core.Daemon.Reshare.{
  accept_reshare, check_leader_group, extract_group, hash_own, reshare_receiver_begin, receiver_end,
}
use drand.Core.Calls.{
  CallResult, failed, refused, no_receiver, DkgRun, LeaderRun, JoinRun, answer_of, leader_run_setup,
  pushed_group, after_push, join_with,
}

-- The fields of drand.InitResharePacket that the call reads, but for the old group
pub record ReshareCall : Type 0 where
  pub leader : Bool
  pub force : Bool
  pub packet : InitResharePacket

module _ (K : Suite) where
  -- runResharing
  unfoldable pub run_resharing :
      Drand K → Bool → Group K → Group K → DkgRun K → Drand K × Result DaemonError (Group K)
  unfolding run_resharing_begin wait_dkg run_resharing_end
  run_resharing d leader old_group new_group run =
      let (begun, may) = run_resharing_begin K d run.id leader old_group new_group in
      elim may [
        | err e ↦ (d, err e)
        | ok _ ↦
            if not run.made
            then (d, err dkg_error)
            else (let (waited, result) =
                  wait_dkg K (run.while_waiting begun) run.result run.saves_share run.saves_group in
                run_resharing_end K run.id (run.after_wait waited, result))
      ]

  -- setupAutomaticResharing, when the group is there
  unfoldable pub join_new_group :
      Drand K → Group K → Group K → JoinRun K → DkgRun K → Drand K × CallResult
  unfolding accept_reshare run_resharing answer_of
  join_new_group d old_group new_group join run =
      let (checked, accepted) = accept_reshare K d old_group new_group join.now in
      elim accepted [
        | err e ↦ (checked, failed (refused e))
        | ok _ ↦
            let (d', final) =
              run_resharing (join.after_check checked) false old_group new_group run in
            (d', answer_of K final)
      ]

  module _ (sha256 : Bytes → Bytes) (dkg_sign : Bytes → Option Bytes)
      (dkg_verify : K.Point → Bytes → Bytes → Bool) where
    abbrev is_made : {A E : Type 0} → Result E A → Bool
    is_made (ok a) = true
    is_made (err e) = false

    -- InitReshare of the leader, once it has the old group, which is its daemon's or not. newReshareSetup
    -- calls Hash once the packet is checked, which leaves the nodes of the old group in order; the group of
    -- a daemon has its seed, so that GetGenesisSeed leaves it as it is.
    unfoldable pub lead_reshare :
        Drand K → Group K → Bool → ReshareCall → LeaderRun K → ℤ → DkgRun K → Drand K × CallResult
    unfolding hash_own new_reshare_setup leader_run_setup check_leader_group after_push push_group
        pushed_group run_resharing
    lead_reshare d old_group own p lead now run =
        let setup = new_reshare_setup K sha256 d.own old_group p.packet in
        let hashed = hash_own K (own && is_made setup) d in
        let sorted = (group_hash K old_group).1 in
        let (set_up, made) = leader_run_setup K hashed setup lead in
        elim made [
          | err e ↦ (set_up, failed (refused e))
          | ok group ↦
              let later = lead.after_setup set_up in
              elim (check_leader_group K sorted group now) [
                | err e ↦ (later, failed (refused e))
                | ok _ ↦
                    after_push K later
                      (push_group K dkg_sign d.own.addr sorted.nodes group.nodes sorted.threshold
                        group p.packet.info.secret p.packet.info.timeout lead.replies).1
                      (λ pushed. run_resharing pushed true sorted (pushed_group K group) run)
              ]
        ]

    -- setupAutomaticResharing. Where the receiver cannot be made, the one that was stopped is forgotten.
    -- Hash leaves the nodes of the old group in the order of their indices, which is the daemon's group
    -- or not.
    unfoldable pub join_reshare :
        Drand K → Group K → Bool → ReshareCall → JoinRun K → DkgRun K → Drand K × CallResult
    unfolding hash_own group_hash reshare_receiver_begin new_setup_receiver receiver_end join_with
        join_new_group
    join_reshare d old_group own p join run =
        let sorted = (group_hash K old_group).1 in
        let hashed = hash_own K own d in
        let (begun, may) = reshare_receiver_begin K hashed join.id p.force in
        elim may [
          | err e ↦ (begun, failed (refused e))
          | ok _ ↦
              elim (new_setup_receiver K sha256 dkg_verify p.packet.info join.leader_identity) [
                | err e ↦ (
                  record hashed {
                    receiver = none;
                    stopped_receivers = hashed.stopped_receivers ++ if_set K hashed.receiver;
                  },
                  failed (no_receiver e),
                )
                | ok receiver ↦
                    let (d', result) =
                      join_with K (join.while_waiting begun) receiver join
                        (λ waited group. join_new_group waited sorted group join run) in
                    (receiver_end K (join.at_end d') join.id, result)
              ]
        ]

    -- InitReshare, with the group that was loaded, what the others do once the old group is known, and
    -- whether the group that the daemon then has is still the one that it had before
    unfoldable pub init_reshare :
        Drand K
        → Option (Group K)
        → ReshareCall
        → (Drand K → Drand K)
        → Bool
        → LeaderRun K
        → ℤ
        → JoinRun K
        → DkgRun K
        → Drand K × CallResult
    unfolding extract_group lead_reshare join_reshare
    init_reshare d loaded p after_group kept lead now join run = elim (extract_group K d loaded) [
      | err e ↦ (d, failed (refused e))
      | ok (old_group, own) ↦
          if not p.leader
          then join_reshare (after_group d) old_group (own && kept) p join run
          else lead_reshare (after_group d) old_group (own && kept) p lead now run
    ]
