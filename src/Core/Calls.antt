-- ===== src/Core/Calls.antt =====
-- core/drand_control.go: InitDKG from its guard to its answer, for the leader of a setup and for a node
-- that joins one. The lock is let go between the steps: what other calls do to the daemon meanwhile is a
-- function. What the network, kyber and the disk answer is an argument, as is each clock reading.
pub mod Finished
pub mod Agreement
pub mod Reshare
pub mod Unchanged
pub mod Led
pub mod Atomic
use drand.Prelude.{
  ℕ, Bool, true, false, not, Option, none, some, List, [], ◌++◌, if◌then◌else◌, Result, ok, err,
  Bytes,
}
use drand.Prelude.Int.{ℤ}
use drand.Key.Suite.{Suite}
use drand.Key.Group.{Group, group_hash}
use drand.Key.Wire.{IdentityPacket, GroupPacket, group_to_proto}
use drand.Core.Setup.{SetupError, SetupManager, SetupInfoPacket, new_dkg_setup}
use drand.Core.Setup.Receiver.{
  ReceiverError, SetupReceiver, WaitCase, new_setup_receiver, wait_dkg_info,
}
use drand.Core.Push.{
  PushEvent, PushOutcome, succeeded, group_timeout, group_failure, signing_failed, waiting,
  push_group,
}
use drand.Core.Daemon.{
  DaemonError, dkg_error, Drand, DkgResult, SetupWait, if_set, may_init_dkg, leader_begin,
  leader_end, wait_dkg, run_dkg_begin, run_dkg_end,
}
use drand.Core.Daemon.Reshare.{accept_group, receiver_begin, receiver_end}

pub data CallError : Type 0 where
  refused : DaemonError → CallError
  no_receiver : ReceiverError → CallError
  not_pushed : PushOutcome → CallError
  not_signaled : CallError

-- What a call comes to: its answer, an error, a nil pointer that it follows, or a wait that goes on
pub data CallResult : Type 0 where
  returned : GroupPacket → CallResult
  failed : CallError → CallResult
  panicked unfinished : CallResult

-- The fields of drand.InitDKGPacket that the call reads, but for the entropy
pub record InitDkgPacket : Type 0 where
  pub leader : Bool
  pub info : SetupInfoPacket
  pub beacon_period : ℕ
  pub catchup_period : ℕ

module _ (K : Suite) where
  -- What a key generation meets: the number of its board, whether NewProtocol has no error, what the others
  -- do while it is waited for and after, and what comes of it
  pub record DkgRun : Type 0 where
    pub id : ℕ
    pub made : Bool
    pub while_waiting : Drand K → Drand K
    pub after_wait : Drand K → Drand K
    pub result : Option (DkgResult K)
    pub saves_share : Bool
    pub saves_group : Bool

  -- runDKG
  unfoldable pub run_dkg :
      Drand K → Bool → Group K → DkgRun → Drand K × Result DaemonError (Group K)
  unfolding run_dkg_begin wait_dkg run_dkg_end
  run_dkg d leader group run =
      if not run.made
      then (d, err dkg_error)
      else (let (waited, result) =
            wait_dkg K (run.while_waiting (run_dkg_begin K d run.id leader group)) run.result
              run.saves_share run.saves_group in
          run_dkg_end K run.id (run.after_wait waited, result))

  -- The answer: the packet of the final group, which has its seed since it was pushed or received, so that
  -- ToProto leaves it as it is.
  unfoldable pub answer_of : Result DaemonError (Group K) → CallResult
  unfolding group_to_proto
  answer_of (err e) = failed (refused e)
  answer_of (ok final) = returned (group_to_proto K final).0

  -- What a leader meets: the number of its manager, what the others do while it waits for the group and
  -- after, what the wait gives, and the replies to the push
  pub record LeaderRun : Type 0 where
    pub id : ℕ
    pub while_waiting : Drand K → Drand K
    pub after_setup : Drand K → Drand K
    pub wait : SetupWait K
    pub replies : List PushEvent

  -- leaderRunSetup
  unfoldable pub leader_run_setup :
      Drand K
      → Result SetupError (SetupManager K)
      → LeaderRun
      → Drand K × Result DaemonError (Group K)
  unfolding leader_begin leader_end
  leader_run_setup d new_setup run =
      let (begun, made) = leader_begin K d run.id new_setup in
      elim made [
        | err e ↦ (begun, err e)
        | ok manager ↦ leader_end K (run.while_waiting begun) run.id run.wait
      ]

  -- The group of the leader after the push: Hash sorted its nodes, and ToProto set its seed.
  unfoldable pub pushed_group : Group K → Group K
  unfolding group_hash group_to_proto
  pushed_group group = (group_to_proto K (group_hash K group).1).1

  -- A call that goes on once the push has succeeded
  unfoldable pub after_push :
      Drand K
      → PushOutcome
      → (Drand K → Drand K × Result DaemonError (Group K))
      → Drand K × CallResult
  unfolding answer_of
  after_push d succeeded next = let (d', final) = next d in (d', answer_of final)
  after_push d waiting next = (d, unfinished)
  after_push d group_timeout next = (d, failed (not_pushed group_timeout))
  after_push d group_failure next = (d, failed (not_pushed group_failure))
  after_push d signing_failed next = (d, failed (not_pushed signing_failed))

  -- What a joining node meets: the number of its receiver, the leader's answer to GetIdentity, whether the
  -- leader takes the key, what the others do until the group is there, after it was checked and at the
  -- end, the receivers at the wait by their numbers, given the one that the call made, the case of the
  -- select, and the clock
  pub record JoinRun : Type 0 where
    pub id : ℕ
    pub leader_identity : Option IdentityPacket
    pub signaled : Bool
    pub while_waiting : Drand K → Drand K
    pub after_wait : Drand K → Drand K
    pub after_check : Drand K → Drand K
    pub at_end : Drand K → Drand K
    pub receivers : SetupReceiver K → ℕ → SetupReceiver K
    pub case : WaitCase K
    pub now : ℤ

  -- A call that goes on with the group that the leader sent. The wait for it reads the receiver of the
  -- daemon again, which another call may have replaced or removed.
  unfoldable pub join_with :
      Drand K
      → SetupReceiver K
      → JoinRun
      → (Drand K → Group K → Drand K × CallResult)
      → Drand K × CallResult
  unfolding wait_dkg_info
  join_with d receiver join next =
      if not join.signaled then (d, failed not_signaled) else elim d.receiver [
        | none ↦ (d, panicked)
        | some id ↦ elim (wait_dkg_info K (join.receivers receiver id) join.case) [
          | err e ↦ (d, failed (no_receiver e))
          | ok received ↦ next (join.after_wait d) received.0
        ]
      ]

  -- setupAutomaticDKG, when the group and the timeout are there
  unfoldable pub join_group : Drand K → Group K → JoinRun → DkgRun → Drand K × CallResult
  unfolding accept_group run_dkg answer_of
  join_group d group join run =
      let (checked, accepted) = accept_group K d group join.now in
      elim accepted [
        | err e ↦ (checked, failed (refused e))
        | ok _ ↦
            let (d', final) = run_dkg (join.after_check checked) false group run in
            (d', answer_of final)
      ]

  module _ (sha256 : Bytes → Bytes) (dkg_sign : Bytes → Option Bytes)
      (dkg_verify : K.Point → Bytes → Bytes → Bool) where
    -- InitDKG of the leader, from the guard on
    unfoldable pub lead_dkg : Drand K → InitDkgPacket → LeaderRun → DkgRun → Drand K × CallResult
    unfolding leader_run_setup after_push pushed_group run_dkg new_dkg_setup push_group
    lead_dkg d p lead run =
        let (set_up, made) =
          leader_run_setup d (new_dkg_setup K sha256 d.own p.beacon_period p.catchup_period p.info)
            lead in
        elim made [
          | err e ↦ (set_up, failed (refused e))
          | ok group ↦
              after_push (lead.after_setup set_up)
                (push_group K dkg_sign d.own.addr [] group.nodes 0 group p.info.secret
                  p.info.timeout lead.replies).1
                (λ pushed. run_dkg pushed true (pushed_group group) run)
        ]

    -- setupAutomaticDKG
    unfoldable pub join_dkg : Drand K → InitDkgPacket → JoinRun → DkgRun → Drand K × CallResult
    unfolding new_setup_receiver receiver_begin receiver_end join_with join_group
    join_dkg d p join run =
        elim (new_setup_receiver K sha256 dkg_verify p.info join.leader_identity) [
          | err e ↦ (
            record d { stopped_receivers = d.stopped_receivers ++ if_set K d.receiver },
            failed (no_receiver e),
          )
          | ok receiver ↦
              let (d', result) =
                join_with (join.while_waiting (receiver_begin K d join.id)) receiver join
                  (λ waited group. join_group waited group join run) in
              (receiver_end K (join.at_end d') join.id, result)
        ]

    -- InitDKG, with what the others do after the guard
    unfoldable pub init_dkg :
        Drand K
        → InitDkgPacket
        → (Drand K → Drand K)
        → LeaderRun
        → JoinRun
        → DkgRun
        → Drand K × CallResult
    unfolding may_init_dkg lead_dkg join_dkg
    init_dkg d p after_guard lead join run = elim (may_init_dkg K d) [
      | err e ↦ (d, failed (refused e))
      | ok _ ↦
          if not p.leader
          then join_dkg (after_guard d) p join run
          else lead_dkg (after_guard d) p lead run
    ]
