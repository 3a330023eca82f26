-- ===== src/Core/Commands/Steps.antt =====
-- core/drand.go, core/drand_control.go: the share and the group of a daemon, however its calls
-- interleave. A step is what happens under one hold of the lock.
use drand.Prelude.{
  ℕ, ◌≡◌, refl, sym, ◌∙◌, inl, inr, Bool, true, false, not, ◌&&◌, ◌||◌, Option, some, Result, ok,
  err, arith, Bool-cases, Result-cases,
}
use drand.Prelude.Int.{ℤ}
use drand.Key.Suite.{Suite}
use drand.Key.Identity.{Share, share_public}
use drand.Key.Group.{Group, find}
use drand.Core.Setup.{SetupError, SetupManager}
use drand.Core.Daemon.{
  Drand, DaemonError, DkgResult, SetupWait, ready, channel_closed, max_wait, leader_begin,
  leader_end, cleanup_dkg, wait_dkg, is_current, drop_info, run_dkg_begin, run_dkg_end, may_reshare,
  is_present, run_resharing_begin, run_resharing_end, begin_follow,
}
use drand.Core.Daemon.Reshare.{
  accept_group, accept_reshare, receiver_begin, reshare_receiver_begin, receiver_end,
}
use drand.Core.Commands.{with_node, new_beacon, stop_beacon, end_follow}

module _ (K : Suite) where
  abbrev pub is_ok : {A : Type 0} → Result DaemonError A → Bool
  is_ok (ok a) = true
  is_ok (err e) = false

  -- The steps of a daemon whose files can be saved. The flag is whether some WaitDKG returned a group,
  -- which runDKG waits for before it ends well.
  pub data Step (d : Drand K) (b : Bool) : Drand K → Bool → Type 0 where
    begins_setup :
        (id : ℕ) (m : Result SetupError (SetupManager K)) → Step d b (leader_begin K d id m).0 b
    ends_setup : (id : ℕ) (w : SetupWait K) → Step d b (leader_end K d id w).0 b
    begins_dkg : (id : ℕ) (leader : Bool) (g : Group K) → Step d b (run_dkg_begin K d id leader g) b
    waits :
        (r : Option (DkgResult K))
        → Step d b (wait_dkg K d r true true).0 (b || is_ok (wait_dkg K d r true true).1)
    fails : (id : ℕ) (e : DaemonError) → Step d b (run_dkg_end K id (d, err e)).0 b
    ends : (id : ℕ) (g : Group K) → b ≡ true → Step d b (run_dkg_end K id (d, ok g)).0 b
    begins_resharing :
        (id : ℕ) (leader : Bool) (old new : Group K)
        → Step d b (run_resharing_begin K d id leader old new).0 b
    fails_resharing : (id : ℕ) (e : DaemonError) → Step d b (run_resharing_end K id (d, err e)).0 b
    begins_receiving : (id : ℕ) → Step d b (receiver_begin K d id) b
    begins_reshare_receiving :
        (id : ℕ) (force : Bool) → Step d b (reshare_receiver_begin K d id force).0 b
    ends_receiving : (id : ℕ) → Step d b (receiver_end K d id) b
    accepts : (g : Group K) (now : ℤ) → Step d b (accept_group K d g now).0 b
    accepts_resharing : (old g : Group K) (now : ℤ) → Step d b (accept_reshare K d old g now).0 b
    begins_following : Step d b (begin_follow K d).0 b
    ends_following : Step d b (end_follow K d) b
    starts : (opens takes : Bool) → Step d b (new_beacon K d opens takes).0 b
    stops : Step d b (stop_beacon K d) b

  pub data Reach (d : Drand K) (b : Bool) : Drand K → Bool → Type 0 where
    here : Reach d b d b
    then_step : {m d' : Drand K} {c b' : Bool} → Reach d b m c → Step m c d' b' → Reach d b d' b'

  -- A share stands beside the group that has its public key; a share is there once a wait returned a
  -- group, and before the key generation is done.
  pub record IsComplete (d : Drand K) (b : Bool) : Type 0 where
    pub matched :
        (s : Share K)
        → d.share ≡ some s
        → (g : Group K) × (d.group ≡ some g) × (g.public_key ≡ some (share_public K s))
    pub kept : b ≡ true → (s : Share K) × (d.share ≡ some s)
    pub done : d.dkg_done ≡ true → (s : Share K) × (d.share ≡ some s)

  -- The share, the group and the flag of the daemon
  pub record IsSame (d d' : Drand K) : Type 0 where
    pub share : d'.share ≡ d.share
    pub group : d'.group ≡ d.group
    pub dkg_done : d'.dkg_done ≡ d.dkg_done

  pub same-IsComplete : (d d' : Drand K) (b : Bool) → IsSame d d' → IsComplete d b → IsComplete d' b
  same-IsComplete d d' b e c = record {
    matched =
        λ s h. let (g, there, key) = c.matched s (sym e.share ∙ h) in (g, e.group ∙ there, key);
    kept = λ h. let (s, there) = c.kept h in (s, e.share ∙ there);
    done = λ h. let (s, there) = c.done (sym e.dkg_done ∙ h) in (s, e.share ∙ there);
  }

  pub itself : (d : Drand K) → IsSame d d
  itself d = record { share = refl; group = refl; dkg_done = refl }

  pub leader_begin-IsSame :
      (d : Drand K) (id : ℕ) (m : Result SetupError (SetupManager K))
      → IsSame d (leader_begin K d id m).0
  unfolding leader_begin
  leader_begin-IsSame d id (ok m) = record { share = refl; group = refl; dkg_done = refl }
  leader_begin-IsSame d id (err e) = record { share = refl; group = refl; dkg_done = refl }

  pub leader_end-IsSame :
      (d : Drand K) (id : ℕ) (w : SetupWait K) → IsSame d (leader_end K d id w).0
  unfolding leader_end
  leader_end-IsSame d id (ready g) = record { share = refl; group = refl; dkg_done = refl }
  leader_end-IsSame d id channel_closed = itself d
  leader_end-IsSame d id max_wait = record { share = refl; group = refl; dkg_done = refl }

  pub cleanup_dkg-IsSame : (d : Drand K) → IsSame d (cleanup_dkg K d)
  unfolding cleanup_dkg
  cleanup_dkg-IsSame d = record {
    share = ground arith;
    group = ground arith;
    dkg_done = ground arith;
  }

  pub drop_info-IsSame : (d : Drand K) (id : ℕ) → IsSame d (drop_info K d id)
  drop_info-IsSame d id = elim (Bool-cases (is_current K id d.dkg_info)) [
    | inl current ↦ rw current (cleanup_dkg-IsSame d)
    | inr other ↦ rw other (itself d)
  ]

  pub resharing_begin-IsSame :
      (d : Drand K) (id : ℕ) (leader : Bool) (old new : Group K)
      → IsSame d (run_resharing_begin K d id leader old new).0
  unfolding run_resharing_begin run_dkg_begin
  resharing_begin-IsSame d id leader old new =
      elim (Bool-cases (leader && not (is_present K (find K old d.own)))) [
        | inl refused ↦ rw (refused, run_resharing_begin) (itself d)
        | inr fine ↦ elim (Result-cases (may_reshare K d (find K old d.own))) [
          | inl (u, may) ↦
              rw (fine, may, run_resharing_begin)
                (record { share = refl; group = refl; dkg_done = refl })
          | inr (e, may_not) ↦ rw (fine, may_not, run_resharing_begin) (itself d)
        ]
      ]

  pub reshare_receiver-IsSame :
      (d : Drand K) (id : ℕ) (force : Bool) → IsSame d (reshare_receiver_begin K d id force).0
  unfolding reshare_receiver_begin receiver_begin
  reshare_receiver-IsSame d id force = record {
    share = ground arith;
    group = ground arith;
    dkg_done = ground arith;
  }

  pub receiver_end-IsSame : (d : Drand K) (id : ℕ) → IsSame d (receiver_end K d id)
  unfolding receiver_end
  receiver_end-IsSame d id = record {
    share = ground arith;
    group = ground arith;
    dkg_done = ground arith;
  }

  pub accept_group-IsSame :
      (d : Drand K) (g : Group K) (now : ℤ) → IsSame d (accept_group K d g now).0
  unfolding accept_group
  accept_group-IsSame d g now = record {
    share = ground arith;
    group = ground arith;
    dkg_done = ground arith;
  }

  pub accept_reshare-IsSame :
      (d : Drand K) (old g : Group K) (now : ℤ) → IsSame d (accept_reshare K d old g now).0
  unfolding accept_reshare
  accept_reshare-IsSame d old g now = record {
    share = ground arith;
    group = ground arith;
    dkg_done = ground arith;
  }

  pub begin_follow-IsSame : (d : Drand K) → IsSame d (begin_follow K d).0
  unfolding begin_follow
  begin_follow-IsSame d = record {
    share = ground arith;
    group = ground arith;
    dkg_done = ground arith;
  }

  pub new_beacon-IsSame :
      (d : Drand K) (opens takes : Bool) → IsSame d (new_beacon K d opens takes).0
  unfolding new_beacon with_node
  new_beacon-IsSame d opens takes = record {
    share = ground arith;
    group = ground arith;
    dkg_done = ground arith;
  }

  pub stop_beacon-IsSame : (d : Drand K) → IsSame d (stop_beacon K d)
  unfolding stop_beacon
  stop_beacon-IsSame d = record {
    share = ground arith;
    group = ground arith;
    dkg_done = ground arith;
  }
