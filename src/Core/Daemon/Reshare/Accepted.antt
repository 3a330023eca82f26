-- ===== src/Core/Daemon/Reshare/Accepted.antt =====
-- core/drand_control.go, core/group_setup.go: the group that the leader of a resharing makes passes its
-- assertions and the checks of the other nodes.
use drand.Prelude.{
  ℕ, ◌+◌, ◌*◌, ◌/◌, ◌≡◌, refl, sym, subst, false, Option, some, List, ok, bytes_equal_iff,
}
use drand.Prelude.Int.{ℤ, pos, eq_ℤ_iff, ltb_ℤ}
use drand.Chain.Time.{next_round}
use drand.Key.Suite.{Suite}
use drand.Key.Identity.{Identity}
use drand.Key.Group.{Group, new_group, get_genesis_seed, seed_or_hash}
use drand.Core.Setup.{SetupManager, created_group}
use drand.Core.Daemon.Reshare.{validate_group_transition, check_leader_group}

module _ (K : Suite) where
  -- The group of createAndSend in a resharing
  abbrev pub reshared : SetupManager K → ℕ → List (Identity K) → Group K → Group K
  reshared s now keys old =
      let group =
        new_group K keys s.thr old.genesis_time (pos s.beacon_period) (pos s.catchup_period) in
      record group {
        transition_time =
            (next_round (pos ((now + (s.dkg_timeout * 3 + s.beacon_offset)) / 1000000000))
              (pos s.beacon_period) old.genesis_time).1;
        genesis_seed = some (get_genesis_seed K old).0;
      }

  same_seed :
      (s : SetupManager K) (now : ℕ) (keys : List (Identity K)) (old : Group K)
      → (get_genesis_seed K (reshared s now keys old)).0 ≡ (get_genesis_seed K old).0
  unfolding get_genesis_seed seed_or_hash new_group
  same_seed s now keys old = refl

  some_inj : {x y : Group K} → ◌≡◌ {A = Option (Group K)} (some x) (some y) → x ≡ y
  some_inj e = cc

  -- The checks pass for groups that agree.
  validate-agree :
      (old g : Group K) (now : ℤ)
      → old.genesis_time ≡ g.genesis_time
      → old.period ≡ g.period
      → (get_genesis_seed K old).0 ≡ (get_genesis_seed K g).0
      → ltb_ℤ now old.genesis_time ≡ false
      → ltb_ℤ g.transition_time now ≡ false
      → (validate_group_transition K old g now ≡ ok tt) × (check_leader_group K old g now ≡ ok tt)
  unfolding validate_group_transition check_leader_group
  validate-agree old g now genesis period seed started ahead =
      let t = (eq_ℤ_iff old.genesis_time g.genesis_time).1 genesis in
      let p = (eq_ℤ_iff old.period g.period).1 period in
      let q = (bytes_equal_iff (get_genesis_seed K old).0 (get_genesis_seed K g).0).1 seed in
      let q' = (bytes_equal_iff (get_genesis_seed K g).0 (get_genesis_seed K old).0).1 (sym seed) in
      (rw (t, p, q, ahead) refl, rw (t, started, p, ahead, q') refl)

  -- At any time from the genesis to the transition, the checks of all nodes and the assertions of the
  -- leader pass for the group that createAndSend makes of a resharing with the period of the old group.
  pub reshared-accepted :
      (s : SetupManager K) (made_at : ℕ) (keys : List (Identity K)) (old g : Group K) (now : ℤ)
      → old.period ≡ pos s.beacon_period
      → (created_group K s made_at keys (some old)).0 ≡ some g
      → ltb_ℤ now old.genesis_time ≡ false
      → ltb_ℤ g.transition_time now ≡ false
      → (validate_group_transition K old g now ≡ ok tt) × (check_leader_group K old g now ≡ ok tt)
  unfolding created_group
  reshared-accepted s made_at keys old g now period made started ahead =
      let same : reshared s made_at keys old ≡ g = some_inj made in
      subst
        (λ (h : Group K).
          ltb_ℤ h.transition_time now ≡ false
          → (validate_group_transition K old h now ≡ ok tt)
            × (check_leader_group K old h now ≡ ok tt))
        same
        (λ later.
          unfold new_group in
          validate-agree old (reshared s made_at keys old) now refl period
            (sym (same_seed s made_at keys old)) started later)
        ahead
