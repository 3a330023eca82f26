-- ===== src/Core/Calls/Unchanged.antt =====
-- core/drand_control.go: what a call of InitDKG or InitReshare that gives no group leaves of the daemon.
use drand.Prelude.{
  ℕ, ◌≡◌, refl, sym, ◌∙◌, inl, inr, Bool, true, false, Option, none, some, Result, ok, err, arith,
  Bool-cases, Result-cases, Option-cases,
}
use drand.Key.Suite.{Suite}
use drand.Key.Group.{Group}
use drand.Core.Setup.{SetupError, SetupManager}
use drand.Core.Setup.Receiver.{SetupReceiver, wait_dkg_info}
use drand.Core.Push.{PushOutcome, succeeded, waiting, group_timeout, group_failure, signing_failed}
use drand.Core.Daemon.{
  DaemonError, Drand, DkgInfo, DkgResult, leader_begin, with_info, wait_dkg, run_dkg_begin,
  run_dkg_end, run_resharing_begin, run_resharing_end,
}
use drand.Core.Commands.Steps.{
  IsSame, itself, leader_begin-IsSame, leader_end-IsSame, drop_info-IsSame, resharing_begin-IsSame,
}
use drand.Core.Calls.{
  CallResult, returned, failed, panicked, unfinished, DkgRun, LeaderRun, JoinRun, answer_of,
  run_dkg, leader_run_setup, after_push, join_with,
}
use drand.Core.Calls.Reshare.{run_resharing}

abbrev pub is_returned : CallResult → Bool
is_returned (returned p) = true
is_returned (failed e) = false
is_returned panicked = false
is_returned unfinished = false

module _ (K : Suite) where
  -- What leaves the share, the group and the flag of the daemon
  abbrev pub IsQuiet : (Drand K → Drand K) → Type 0
  IsQuiet f = (d : Drand K) → IsSame K d (f d)

  -- The other calls are quiet, and the files can be saved.
  pub record IsQuietRun (run : DkgRun K) : Type 0 where
    pub waits : IsQuiet run.while_waiting
    pub ends : IsQuiet run.after_wait
    pub saves_share : run.saves_share ≡ true
    pub saves_group : run.saves_group ≡ true

  pub IsSame-trans : {d e f : Drand K} → IsSame K d e → IsSame K e f → IsSame K d f
  IsSame-trans s t = record {
    share = t.share ∙ s.share;
    group = t.group ∙ s.group;
    dkg_done = t.dkg_done ∙ s.dkg_done;
  }

  abbrev pub is_set : Result DaemonError (Group K) → Bool
  is_set (ok g) = true
  is_set (err e) = false

  with_info-IsSame :
      (d : Drand K) (r : DkgResult K) (o : Option (ℕ × DkgInfo K))
      → is_set (with_info K d r true true o).1 ≡ false
      → IsSame K d (with_info K d r true true o).0
  unfolding with_info
  with_info-IsSame d r none h = itself K d
  with_info-IsSame d r (some i) h = absurd (ground arith)

  wait_dkg-IsSame :
      (d : Drand K) (o : Option (DkgResult K))
      → is_set (wait_dkg K d o true true).1 ≡ false
      → IsSame K d (wait_dkg K d o true true).0
  unfolding wait_dkg
  wait_dkg-IsSame d none h = itself K d
  wait_dkg-IsSame d (some r) h = with_info-IsSame d r d.dkg_info h

  run_dkg_end-IsSame :
      (id : ℕ) (after : Drand K → Drand K) (d : Drand K)
      (t : Drand K × Result DaemonError (Group K))
      → IsQuiet after
      → (is_set t.1 ≡ false → IsSame K d t.0)
      → is_set (run_dkg_end K id (after t.0, t.1)).1 ≡ false
      → IsSame K d (run_dkg_end K id (after t.0, t.1)).0
  unfolding run_dkg_end
  run_dkg_end-IsSame id after d (w, err e) quiet same h =
      IsSame-trans (same refl) (IsSame-trans (quiet w) (drop_info-IsSame K (after w) id))
  run_dkg_end-IsSame id after d (w, ok g) quiet same h = absurd (ground arith)

  pub run_dkg-IsSame :
      (d : Drand K) (leader : Bool) (g : Group K) (run : DkgRun K)
      → IsQuietRun run
      → is_set (run_dkg K d leader g run).1 ≡ false
      → IsSame K d (run_dkg K d leader g run).0
  unfolding run_dkg
  run_dkg-IsSame d leader g run q = elim (Bool-cases run.made) [
    | inr unmade ↦ rw (unmade, run_dkg) (λ h. itself K d)
    | inl made ↦
        let begun = run_dkg_begin K d run.id leader g in
        let same_begun : IsSame K d begun =
          unfold run_dkg_begin in record { share = refl; group = refl; dkg_done = refl } in
        rw (made, q.saves_share, q.saves_group, run_dkg)
          (run_dkg_end-IsSame run.id run.after_wait d
            (wait_dkg K (run.while_waiting begun) run.result true true) q.ends
            (λ h.
              IsSame-trans (IsSame-trans same_begun (q.waits begun))
                (wait_dkg-IsSame (run.while_waiting begun) run.result h)))
  ]

  run_resharing_end-IsSame :
      (id : ℕ) (after : Drand K → Drand K) (d : Drand K)
      (t : Drand K × Result DaemonError (Group K))
      → IsQuiet after
      → (is_set t.1 ≡ false → IsSame K d t.0)
      → is_set (run_resharing_end K id (after t.0, t.1)).1 ≡ false
      → IsSame K d (run_resharing_end K id (after t.0, t.1)).0
  unfolding run_resharing_end
  run_resharing_end-IsSame id after d (w, err e) quiet same h =
      IsSame-trans (same refl) (IsSame-trans (quiet w) (drop_info-IsSame K (after w) id))
  run_resharing_end-IsSame id after d (w, ok g) quiet same h = absurd (ground arith)

  pub run_resharing-IsSame :
      (d : Drand K) (leader : Bool) (old new : Group K) (run : DkgRun K)
      → IsQuietRun run
      → is_set (run_resharing K d leader old new run).1 ≡ false
      → IsSame K d (run_resharing K d leader old new run).0
  unfolding run_resharing
  run_resharing-IsSame d leader old new run q =
      let begun = (run_resharing_begin K d run.id leader old new).0 in
      elim (Result-cases (run_resharing_begin K d run.id leader old new).1) [
        | inr (e, refused) ↦ rw (refused, run_resharing) (λ h. itself K d)
        | inl (u, may) ↦ elim (Bool-cases run.made) [
          | inr unmade ↦ rw (may, unmade, run_resharing) (λ h. itself K d)
          | inl made ↦
              rw (may, made, q.saves_share, q.saves_group, run_resharing)
                (run_resharing_end-IsSame run.id run.after_wait d
                  (wait_dkg K (run.while_waiting begun) run.result true true) q.ends
                  (λ h.
                    IsSame-trans
                      (IsSame-trans (resharing_begin-IsSame K d run.id leader old new)
                        (q.waits begun))
                      (wait_dkg-IsSame (run.while_waiting begun) run.result h)))
        ]
      ]

  pub answer_of-is_set : (r : Result DaemonError (Group K)) → is_returned (answer_of K r) ≡ is_set r
  unfolding answer_of
  answer_of-is_set (ok g) = refl
  answer_of-is_set (err e) = refl

  pub leader_run_setup-IsSame :
      (d : Drand K) (m : Result SetupError (SetupManager K)) (lead : LeaderRun K)
      → IsQuiet lead.while_waiting
      → IsSame K d (leader_run_setup K d m lead).0
  unfolding leader_run_setup leader_begin
  leader_run_setup-IsSame d (err e) lead quiet = leader_begin-IsSame K d lead.id (err e)
  leader_run_setup-IsSame d (ok m) lead quiet =
      let begun = (leader_begin K d lead.id (ok m)).0 in
      IsSame-trans (leader_begin-IsSame K d lead.id (ok m)) (
        IsSame-trans (quiet begun)
          (leader_end-IsSame K (lead.while_waiting begun) lead.id lead.wait))

  pub after_push-IsSame :
      (d : Drand K) (o : PushOutcome) (next : Drand K → Drand K × Result DaemonError (Group K))
      → (is_set (next d).1 ≡ false → IsSame K d (next d).0)
      → is_returned (after_push K d o next).1 ≡ false
      → IsSame K d (after_push K d o next).0
  unfolding after_push
  after_push-IsSame d succeeded next same h = same (sym (answer_of-is_set (next d).1) ∙ h)
  after_push-IsSame d waiting next same h = itself K d
  after_push-IsSame d group_timeout next same h = itself K d
  after_push-IsSame d group_failure next same h = itself K d
  after_push-IsSame d signing_failed next same h = itself K d

  pub join_with-IsSame :
      (d : Drand K) (receiver : SetupReceiver K) (join : JoinRun K)
      (next : Drand K → Group K → Drand K × CallResult)
      → IsQuiet join.after_wait
      → ((e : Drand K) (g : Group K) → is_returned (next e g).1 ≡ false → IsSame K e (next e g).0)
      → is_returned (join_with K d receiver join next).1 ≡ false
      → IsSame K d (join_with K d receiver join next).0
  unfolding join_with
  join_with-IsSame d receiver join next quiet same = elim (Bool-cases join.signaled) [
    | inr unheard ↦ rw (unheard, join_with) (λ h. itself K d)
    | inl heard ↦ elim (Option-cases d.receiver) [
      | inl gone ↦ simp (heard, gone, join_with) (λ h. itself K d)
      | inr (id, there) ↦
          elim (Result-cases (wait_dkg_info K (join.receivers receiver id) join.case)) [
            | inr (e, no_group) ↦ simp (heard, there, no_group, join_with) (λ h. itself K d)
            | inl (received, comes) ↦
                simp (heard, there, comes, join_with)
                  (λ h. IsSame-trans (quiet d) (same (join.after_wait d) received.0 h))
          ]
    ]
  ]
