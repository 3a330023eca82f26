-- ===== src/Core/Daemon/Reshare.antt =====
-- core/drand_control.go: the checks that a node and a leader make of a new group, and the receiver of a
-- setup. Clock readings are seconds after 1970.
pub mod Accepted
use mathlib.Core.Option
use drand.Prelude.{
  ℕ, ◌≡◌, Bool, true, false, not, ◌&&◌, Option, none, some, List, [], ◌∷◌, ◌++◌, length, ltb, ◌==◌,
  if◌then◌else◌, Result, ok, err, Bytes, bytes_equal,
}
use drand.Prelude.Int.{ℤ, eq_ℤ, ltb_ℤ}
use drand.Key.Suite.{Suite}
use drand.Key.Node.{Node}
use drand.Key.Group.{Group, find, minimum_t, group_hash, get_genesis_seed}
use drand.Core.Daemon.{
  DaemonError, genesis_in_past, not_in_group, reshare_in_progress, no_old_group, different_genesis,
  different_period, different_seed, transition_in_past, genesis_in_future, Drand, if_set,
}

module _ (K : Suite) where
  abbrev seeds_differ : Group K → Group K → Bool
  seeds_differ g h = not (bytes_equal (get_genesis_seed K g).0 (get_genesis_seed K h).0)

  -- validateGroupTransition, at the time `now`
  unfoldable pub validate_group_transition : Group K → Group K → ℤ → Result DaemonError (Unit {0})
  unfolding get_genesis_seed
  validate_group_transition old_group new_group now =
      if not (eq_ℤ old_group.genesis_time new_group.genesis_time)
      then err different_genesis
      else if not (eq_ℤ old_group.period new_group.period)
      then err different_period
      else if seeds_differ old_group new_group
      then err different_seed
      else if ltb_ℤ new_group.transition_time now
      then err transition_in_past
      else ok tt

  -- The assertions of InitReshare on the group that the leader made
  unfoldable pub check_leader_group : Group K → Group K → ℤ → Result DaemonError (Unit {0})
  unfolding get_genesis_seed
  check_leader_group old_group new_group now =
      if not (eq_ℤ old_group.genesis_time new_group.genesis_time)
      then err different_genesis
      else if ltb_ℤ now old_group.genesis_time
      then err genesis_in_future
      else if not (eq_ℤ old_group.period new_group.period)
      then err different_period
      else if ltb_ℤ new_group.transition_time now
      then err transition_in_past
      else if seeds_differ new_group old_group
      then err different_seed
      else ok tt

  abbrev pub with_index : Drand K → Node K → Drand K
  with_index d node = record d { index = node.index }

  -- setupAutomaticDKG, when the group of the leader is there
  unfoldable pub accept_group : Drand K → Group K → ℤ → Drand K × Result DaemonError (Unit {0})
  unfolding find
  accept_group d group now =
      if ltb_ℤ group.genesis_time now then (d, err genesis_in_past) else elim (find K group d.own) [
        | none ↦ (d, err not_in_group)
        | some node ↦ (with_index d node, ok tt)
      ]

  -- setupAutomaticResharing, when the group is there; a node may leave.
  unfoldable pub accept_reshare :
      Drand K → Group K → Group K → ℤ → Drand K × Result DaemonError (Unit {0})
  unfolding validate_group_transition find
  accept_reshare d old_group new_group now =
      elim (validate_group_transition old_group new_group now) [
        | err e ↦ (d, err e)
        | ok _ ↦ elim (find K new_group d.own) [
          | none ↦ (d, ok tt)
          | some node ↦ (with_index d node, ok tt)
        ]
      ]

  -- The receiver of a fresh setup: one that runs is stopped.
  unfoldable pub receiver_begin : Drand K → ℕ → Drand K
  receiver_begin d id = record d {
    receiver = some id;
    stopped_receivers = d.stopped_receivers ++ if_set K d.receiver;
  }

  -- The receiver of a resharing: one that runs is stopped only if forced.
  unfoldable pub reshare_receiver_begin :
      Drand K → ℕ → Bool → Drand K × Result DaemonError (Unit {0})
  unfolding receiver_begin
  reshare_receiver_begin d id force = elim d.receiver [
    | none ↦ (receiver_begin d id, ok tt)
    | some running ↦
        if not force then (d, err reshare_in_progress) else (receiver_begin d id, ok tt)
  ]

  -- The deferred end of both: the receiver is stopped, and forgotten if it is still the current one.
  unfoldable pub receiver_end : Drand K → ℕ → Drand K
  receiver_end d id =
      let stopped : Drand K = record d { stopped_receivers = d.stopped_receivers ++ id ∷ [] } in
      elim d.receiver [
        | none ↦ stopped
        | some running ↦ if running == id then record stopped { receiver = none } else stopped
      ]

  -- extractGroup: a group that was loaded, none for an error, has a minimal threshold.
  unfoldable pub loaded_group : Option (Group K) → Option (Group K)
  unfolding minimum_t
  loaded_group none = none
  loaded_group (some g) = if ltb g.threshold (minimum_t (length g.nodes)) then none else some g

  -- Drand.extractGroup: the group of the daemon where none was loaded, with whether it is that group
  -- itself, which then shares its nodes with the daemon
  unfoldable pub extract_group : Drand K → Option (Group K) → Result DaemonError (Group K × Bool)
  unfolding loaded_group
  extract_group d loaded = elim (loaded_group loaded) [
    | some g ↦ ok (g, false)
    | none ↦ elim d.group [ none ↦ err no_old_group | some g ↦ ok (g, true) ]
  ]

  -- What Hash leaves of a daemon: where the group that is hashed is its own, the nodes are in order.
  unfoldable pub hash_own : Bool → Drand K → Drand K
  unfolding group_hash
  hash_own own d =
      if own then record d { group = Option.map (λ g. (group_hash K g).1) d.group } else d
