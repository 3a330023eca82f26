-- ===== src/Core/Calls/Finished.antt =====
-- core/drand_control.go: InitDKG where the key generation ends well, at the leader and at a node that
-- joins.
use drand.Prelude.{
  ℕ, ◌≡◌, refl, sym, ap, Bool, true, false, Option, none, some, [], ◌∷◌, Result, ok, err, Bytes,
  arith,
}
use drand.Prelude.Int.{ltb_ℤ}
use drand.Key.Suite.{Suite}
use drand.Key.Identity.{KeyError, Identity}
use drand.Key.Node.{Node}
use drand.Key.Group.{Group, find}
use drand.Key.Wire.{IdentityPacket, identity_from_proto, group_to_proto}
use drand.Core.Setup.{SetupManager, SetupInfoPacket, new_dkg_setup}
use drand.Core.Setup.Receiver.{
  SetupReceiver, from_channel, new_setup_receiver, receiver_of, wait_dkg_info,
}
use drand.Core.Push.{succeeded, push_group}
use drand.Core.Daemon.{
  Drand, DkgResult, ready, final_group, with_info, wait_dkg, run_dkg_begin, run_dkg_end,
  leader_begin, leader_end,
}
use drand.Core.Daemon.Reshare.{accept_group, receiver_begin}
use drand.Core.Calls.{
  InitDkgPacket, DkgRun, LeaderRun, JoinRun, returned, run_dkg, answer_of, leader_run_setup,
  pushed_group, after_push, lead_dkg, join_group, join_with, join_dkg,
}

module _ (K : Suite) where
  -- A key generation that ends well, with this result, while no other takes its place
  pub record IsFinished (run : DkgRun K) (r : DkgResult K) : Type 0 where
    pub made : run.made ≡ true
    pub kept : (d : Drand K) → (run.while_waiting d).dkg_info ≡ d.dkg_info
    pub result : run.result ≡ some r
    pub saves_share : run.saves_share ≡ true
    pub saves_group : run.saves_group ≡ true

  run_dkg-IsFinished :
      (d : Drand K) (leader : Bool) (g : Group K) (run : DkgRun K) (r : DkgResult K)
      → IsFinished run r
      → (run_dkg K d leader g run).1 ≡ ok (final_group K g r)
  unfolding run_dkg wait_dkg with_info run_dkg_end run_dkg_begin
  run_dkg-IsFinished d leader g run r f =
      rw
        (f.made, f.result, f.saves_share, f.saves_group, f.kept (run_dkg_begin K d run.id leader g))
        refl

  -- The daemon of a joining node when the group is there
  abbrev pub waited : Drand K → JoinRun K → Drand K
  waited d join = join.after_wait (join.while_waiting (receiver_begin K d join.id))

  module _ (sha256 : Bytes → Bytes) (dkg_sign : Bytes → Option Bytes)
      (dkg_verify : K.Point → Bytes → Bytes → Bool) where
    -- The leader answers with the final group of the pushed one.
    pub lead_dkg-IsFinished :
        (d : Drand K) (p : InitDkgPacket) (lead : LeaderRun K) (run : DkgRun K) (m : SetupManager K)
        (g : Group K) (r : DkgResult K)
        → new_dkg_setup K sha256 d.own p.beacon_period p.catchup_period p.info ≡ ok m
        → lead.wait ≡ ready g
        → (push_group K dkg_sign d.own.addr [] g.nodes 0 g p.info.secret p.info.timeout
            lead.replies).1
          ≡ succeeded
        → IsFinished run r
        → (lead_dkg K sha256 dkg_sign dkg_verify d p lead run).1
          ≡ returned (group_to_proto K (final_group K (pushed_group K g) r)).0
    unfolding lead_dkg leader_run_setup leader_begin leader_end after_push answer_of
    lead_dkg-IsFinished d p lead run m g r made waits pushes f =
        rw (made, lead_dkg)
          (rw (leader_run_setup, waits)
            (rw (pushes, after_push)
              (rw (run_dkg-IsFinished _ true (pushed_group K g) run r f, answer_of) refl)))

    -- A node that finds itself in a group that is not too late answers with the final group of it.
    join_group-IsFinished :
        (d : Drand K) (g : Group K) (join : JoinRun K) (run : DkgRun K) (node : Node K)
        (r : DkgResult K)
        → ltb_ℤ g.genesis_time join.now ≡ false
        → find K g d.own ≡ some node
        → IsFinished run r
        → (join_group K d g join run).1 ≡ returned (group_to_proto K (final_group K g r)).0
    unfolding join_group accept_group answer_of
    join_group-IsFinished d g join run node r early found f =
        rw (early, found, join_group) (rw (run_dkg-IsFinished _ false g run r f, answer_of) refl)

    receiver_of-fresh :
        (p : SetupInfoPacket) (o : Result KeyError (Identity K)) (receiver : SetupReceiver K)
        → receiver_of K sha256 dkg_verify p o ≡ ok receiver
        → (receiver.ch ≡ []) × (receiver.secret ≡ sha256 p.secret)
    unfolding receiver_of
    receiver_of-fresh p (err e) receiver h = absurd (ground arith)
    receiver_of-fresh p (ok id) receiver h =
        let made : record { leader_id = id; secret = sha256 p.secret; ch = []; done = false }
            ≡ receiver =
          cc in
        (ap (λ t. t.ch) (sym made), ap (λ t. t.secret) (sym made))

    pub new_setup_receiver-fresh :
        (p : SetupInfoPacket) (o : Option IdentityPacket) (receiver : SetupReceiver K)
        → new_setup_receiver K sha256 dkg_verify p o ≡ ok receiver
        → (receiver.ch ≡ []) × (receiver.secret ≡ sha256 p.secret)
    unfolding new_setup_receiver
    new_setup_receiver-fresh p none receiver h = absurd (ground arith)
    new_setup_receiver-fresh p (some id) receiver h =
        receiver_of-fresh p (identity_from_proto K id) receiver h

    -- A joining node whose receiver took one group, and was not replaced
    pub join_dkg-IsFinished :
        (d : Drand K) (p : InitDkgPacket) (join : JoinRun K) (run : DkgRun K)
        (receiver : SetupReceiver K) (g : Group K) (timeout : ℕ) (node : Node K) (r : DkgResult K)
        → new_setup_receiver K sha256 dkg_verify p.info join.leader_identity ≡ ok receiver
        → join.signaled ≡ true
        → (join.while_waiting (receiver_begin K d join.id)).receiver ≡ some join.id
        → (join.receivers receiver join.id).ch ≡ record { group = g; timeout = timeout } ∷ []
        → join.case ≡ from_channel
        → ltb_ℤ g.genesis_time join.now ≡ false
        → find K g (waited d join).own ≡ some node
        → IsFinished run r
        → (join_dkg K sha256 dkg_sign dkg_verify d p join run).1
          ≡ returned (group_to_proto K (final_group K g r)).0
    unfolding join_dkg join_with wait_dkg_info
    join_dkg-IsFinished d p join run receiver g timeout node r made signaled kept taken case early
          found f =
        rw (made, join_dkg)
          (rw (signaled, kept, join_with)
            (rw (case, taken, wait_dkg_info)
              (join_group-IsFinished (waited d join) g join run node r early found f)))
