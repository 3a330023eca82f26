-- ===== src/Core/Daemon.antt =====
-- core/drand.go, core/drand_control.go: the state of a daemon and what the commands make of it. A step is
-- what happens under one hold of the lock; the numbers of managers, receivers and key generations stand
-- for their pointers. The results of kyber's key generation, whether files are saved, and the clock's
-- readings, in seconds, are arguments.
pub mod Reshare
use drand.Prelude.{
  ℕ, ◌-◌, ◌+◌, Bool, true, false, not, ◌&&◌, ◌||◌, Option, none, some, List, [], ◌∷◌, ◌++◌, length,
  map, filter, ltb, ◌==◌, if◌then◌else◌, Result, ok, err, Bytes, bytes_equal,
}
use drand.Prelude.Int.{ℤ, pos, eq_ℤ, ltb_ℤ, ◌-ℤ◌}
use drand.Key.Suite.{Suite}
use drand.Key.Identity.{Identity, DistPublic, Share, share_public}
use drand.Key.Node.{Node}
use drand.Key.Group.{Group, find, minimum_t, get_genesis_seed}
use drand.Core.Setup.{SetupError, SetupManager}

pub data DaemonError : Type 0 where
  already_done preempted no_key_received not_in_old_group dkg_not_finished no_share no_dkg_info
        dkg_error save_error :
      DaemonError
  genesis_in_past not_in_group reshare_in_progress no_old_group no_group already_syncing :
      DaemonError
  different_genesis different_period different_seed transition_in_past genesis_in_future :
      DaemonError
  invalid_setup : SetupError → DaemonError

module _ (K : Suite) where
  pub record DkgInfo : Type 0 where
    pub target : Group K
    pub started : Bool

  -- The result of a key generation: the indices of the qualified nodes, and the share
  pub record DkgResult : Type 0 where
    pub qual : List ℕ
    pub share : Share K

  pub record Drand : Type 0 where
    -- priv: the private key and the identity
    pub key : K.Scalar
    pub own : Identity K
    pub index : ℕ
    pub group : Option (Group K)
    pub share : Option (Share K)
    pub dkg_done : Bool
    pub manager : Option ℕ
    pub receiver : Option ℕ
    pub dkg_info : Option (ℕ × DkgInfo)
    pub has_beacon : Bool
    pub syncing : Bool
    -- managers, receivers and boards that were stopped
    pub stopped_managers : List ℕ
    pub stopped_receivers : List ℕ
    pub stopped_boards : List ℕ

  abbrev pub if_set : Option ℕ → List ℕ
  if_set none = []
  if_set (some id) = id ∷ []

  -- InitDKG: the first guard
  unfoldable pub may_init_dkg : Drand → Result DaemonError (Unit {0})
  may_init_dkg d = if d.dkg_done then err already_done else ok tt

  -- leaderRunSetup, up to the wait for the group: a manager that runs is stopped first.
  unfoldable pub leader_begin :
      Drand → ℕ → Result SetupError (SetupManager K) → Drand × Result DaemonError (SetupManager K)
  leader_begin d id (err e) = (
    record d { stopped_managers = d.stopped_managers ++ if_set d.manager },
    err (invalid_setup e),
  )
  leader_begin d id (ok m) = (
    record d { stopped_managers = d.stopped_managers ++ if_set d.manager; manager = some id },
    ok m,
  )

  -- What the select of leaderRunSetup gave: a group, the closed channel, or the end of the wait
  pub data SetupWait : Type 0 where
    ready : Group K → SetupWait
    channel_closed max_wait : SetupWait

  -- leaderRunSetup, from there on
  unfoldable pub leader_end : Drand → ℕ → SetupWait → Drand × Result DaemonError (Group K)
  leader_end d id (ready g) = (record d { manager = none }, ok g)
  leader_end d id channel_closed = (d, err preempted)
  leader_end d id max_wait = (
    record d { manager = none; stopped_managers = d.stopped_managers ++ id ∷ [] },
    err no_key_received,
  )

  -- cleanupDKG
  unfoldable pub cleanup_dkg : Drand → Drand
  cleanup_dkg d = elim d.dkg_info [
    | none ↦ d
    | some info ↦ record d { dkg_info = none; stopped_boards = d.stopped_boards ++ info.0 ∷ [] }
  ]

  abbrev pub is_current : ℕ → Option (ℕ × DkgInfo) → Bool
  is_current id none = false
  is_current id (some info) = info.0 == id

  -- The loops of WaitDKG: the nodes of the target group that qualified
  unfoldable pub qualified : List (Node K) → List ℕ → List (Node K)
  qualified [] qual = []
  qualified (n ∷ ns) qual = map (λ _. n) (filter (λ i. i == n.index) qual) ++ qualified ns qual

  abbrev pub final_group : Group K → DkgResult → Group K
  final_group target r = record target {
    nodes = qualified target.nodes r.qual;
    public_key = some (share_public K r.share);
  }

  -- WaitDKG, when the result is there: the target is that of the key generation of that time, whose
  -- absence panics. The share is saved first, then the group.
  unfoldable pub with_info :
      Drand → DkgResult → Bool → Bool → Option (ℕ × DkgInfo) → Drand × Result DaemonError (Group K)
  unfolding qualified share_public cleanup_dkg
  with_info d r saves_share saves_group none = (d, err no_dkg_info)
  with_info d r saves_share saves_group (some (id, info)) =
      let shared : Drand = record d { share = some r.share } in
      let final = final_group info.target r in
      let grouped : Drand = record shared { group = some final } in
      if not saves_share
      then (shared, err save_error)
      else if not saves_group
      then (grouped, err save_error)
      else (cleanup_dkg grouped, ok final)

  unfoldable pub wait_dkg :
      Drand → Option DkgResult → Bool → Bool → Drand × Result DaemonError (Group K)
  unfolding with_info
  wait_dkg d none saves_share saves_group = (d, err dkg_error)
  wait_dkg d (some r) saves_share saves_group = with_info d r saves_share saves_group d.dkg_info

  -- runDKG, up to the wait
  unfoldable pub run_dkg_begin : Drand → ℕ → Bool → Group K → Drand
  run_dkg_begin d id leader group = record d {
    dkg_info = some (id, record { target = group; started = leader });
  }

  abbrev pub drop_info : Drand → ℕ → Drand
  drop_info d id = if is_current id d.dkg_info then cleanup_dkg d else d

  -- runDKG, from there on
  unfoldable pub run_dkg_end :
      ℕ → Drand × Result DaemonError (Group K) → Drand × Result DaemonError (Group K)
  unfolding cleanup_dkg
  run_dkg_end id (d, err e) = (drop_info d id, err e)
  run_dkg_end id (d, ok final) = (record (cleanup_dkg d) { dkg_done = true }, ok final)

  -- runResharing, up to the wait
  unfoldable pub may_reshare : Drand → Option (Node K) → Result DaemonError (Unit {0})
  may_reshare d none = ok tt
  may_reshare d (some node) = elim d.dkg_info [
    | some info ↦ err dkg_not_finished
    | none ↦ elim d.share [ none ↦ err no_share | some s ↦ ok tt ]
  ]

  abbrev pub is_present : Option (Node K) → Bool
  is_present none = false
  is_present (some n) = true

  unfoldable pub run_resharing_begin :
      Drand → ℕ → Bool → Group K → Group K → Drand × Result DaemonError (Unit {0})
  unfolding run_dkg_begin may_reshare find
  run_resharing_begin d id leader old_group new_group =
      if leader && not (is_present (find K old_group d.own))
      then (d, err not_in_old_group)
      else elim (may_reshare d (find K old_group d.own)) [
        | err e ↦ (d, err e)
        | ok _ ↦ (run_dkg_begin d id leader new_group, ok tt)
      ]

  -- runResharing, from there on; the transition of the beacon follows.
  unfoldable pub run_resharing_end :
      ℕ → Drand × Result DaemonError (Group K) → Drand × Result DaemonError (Group K)
  unfolding cleanup_dkg
  run_resharing_end id (d, err e) = (drop_info d id, err e)
  run_resharing_end id (d, ok final) = (d, ok final)

  -- transition: leave at a time, switch to the new share, or join from the old group
  pub data Transition : Type 0 where
    leave_at : ℤ → Transition
    switch_to : Option (Group K) → Option (Share K) → Transition
    join_from : Group K → Transition

  unfoldable pub transition : Drand → Group K → ℤ → Bool → Bool → Transition
  transition d old_group transition_time old_present new_present =
      if not new_present
      then leave_at (transition_time -ℤ pos 1)
      else if old_present
      then switch_to d.group d.share
      else join_from old_group

  -- GroupFile
  unfoldable pub group_file : Drand → Result DaemonError (Group K)
  group_file d = elim d.group [ none ↦ err no_group | some g ↦ ok g ]

  -- StartFollowChain: one at a time
  unfoldable pub begin_follow : Drand → Drand × Result DaemonError (Unit {0})
  begin_follow d =
      if d.syncing then (d, err already_syncing) else (record d { syncing = true }, ok tt)
