-- ===== src/Core/Calls/Atomic.antt =====
-- core/drand_control.go: InitDKG and InitReshare change the share and the group of a daemon, or give none.
use drand.Prelude.{
  ◌≡◌, refl, sym, ◌∙◌, inl, inr, Bool, true, false, Option, none, some, Bytes, Bool-cases,
  Option-cases, Result-cases, arith,
}
use drand.Prelude.Int.{ℤ}
use drand.Key.Suite.{Suite}
use drand.Key.Group.{Group, group_hash}
use drand.Core.Setup.Receiver.{new_setup_receiver}
use drand.Core.Daemon.{Drand, may_init_dkg}
use drand.Core.Daemon.Reshare.{
  accept_group, accept_reshare, loaded_group, extract_group, receiver_begin, reshare_receiver_begin,
  receiver_end,
}
use drand.Core.Commands.Steps.{
  IsSame, itself, receiver_end-IsSame, reshare_receiver-IsSame, accept_group-IsSame,
  accept_reshare-IsSame,
}
use drand.Core.Calls.{
  CallResult, InitDkgPacket, DkgRun, LeaderRun, JoinRun, join_group, join_dkg, init_dkg,
}
use drand.Core.Calls.Reshare.{ReshareCall, join_new_group, join_reshare, init_reshare}
use drand.Core.Calls.Unchanged.{
  is_returned, IsQuiet, IsQuietRun, IsSame-trans, run_dkg-IsSame, run_resharing-IsSame,
  answer_of-is_set, join_with-IsSame,
}
use drand.Core.Calls.Led.{IsQuietSetup, lead_dkg-IsSame, lead_reshare-IsSame}

module _ (K : Suite) where
  -- A call of InitDKG, or one of InitReshare with the group that was loaded, whether the daemon keeps its
  -- own group until Hash, and the clock
  pub data Call : Type 0 where
    call_dkg : InitDkgPacket → Call
    call_reshare : Option (Group K) → Bool → ReshareCall → ℤ → Call

  abbrev is_some : Option (Group K) → Bool
  is_some none = false
  is_some (some g) = true

  -- InitDKG needs no old group; InitReshare brings one if one was loaded that has a minimal threshold.
  abbrev pub brings_group : Call → Bool
  brings_group (call_dkg p) = true
  brings_group (call_reshare loaded kept p now) = is_some (loaded_group K loaded)

  join_group-IsSame :
      (d : Drand K) (g : Group K) (join : JoinRun K) (run : DkgRun K)
      → IsQuiet K join.after_check
      → IsQuietRun K run
      → is_returned (join_group K d g join run).1 ≡ false
      → IsSame K d (join_group K d g join run).0
  unfolding join_group
  join_group-IsSame d g join run quiet q =
      let checked = (accept_group K d g join.now).0 in
      let same = accept_group-IsSame K d g join.now in
      elim (Result-cases (accept_group K d g join.now).1) [
        | inr (e, bad) ↦ rw (bad, join_group) (λ h. same)
        | inl (u, fine) ↦
            rw (fine, join_group)
              (λ h. IsSame-trans K (IsSame-trans K same (quiet checked)) (
                run_dkg-IsSame K (join.after_check checked) false g run q
                  (sym (answer_of-is_set K _) ∙ h)))
      ]

  join_new_group-IsSame :
      (d : Drand K) (old new : Group K) (join : JoinRun K) (run : DkgRun K)
      → IsQuiet K join.after_check
      → IsQuietRun K run
      → is_returned (join_new_group K d old new join run).1 ≡ false
      → IsSame K d (join_new_group K d old new join run).0
  unfolding join_new_group
  join_new_group-IsSame d old new join run quiet q =
      let checked = (accept_reshare K d old new join.now).0 in
      let same = accept_reshare-IsSame K d old new join.now in
      elim (Result-cases (accept_reshare K d old new join.now).1) [
        | inr (e, bad) ↦ rw (bad, join_new_group) (λ h. same)
        | inl (u, fine) ↦
            rw (fine, join_new_group)
              (λ h. IsSame-trans K (IsSame-trans K same (quiet checked)) (
                run_resharing-IsSame K (join.after_check checked) false old new run q
                  (sym (answer_of-is_set K _) ∙ h)))
      ]

  module _ (sha256 : Bytes → Bytes) (dkg_sign : Bytes → Option Bytes)
      (dkg_verify : K.Point → Bytes → Bytes → Bool) where
    -- The deferred end of a call that joined
    ended :
        (d e : Drand K) (lead : LeaderRun K) (join : JoinRun K)
        → IsQuietSetup K lead join
        → IsSame K d e
        → IsSame K d (receiver_end K (join.at_end e) join.id)
    ended d e lead join quiet same =
        IsSame-trans K (IsSame-trans K same (quiet.ends e))
          (receiver_end-IsSame K (join.at_end e) join.id)

    join_dkg-IsSame :
        (d : Drand K) (p : InitDkgPacket) (lead : LeaderRun K) (join : JoinRun K) (run : DkgRun K)
        → IsQuietSetup K lead join
        → IsQuietRun K run
        → is_returned (join_dkg K sha256 dkg_sign dkg_verify d p join run).1 ≡ false
        → IsSame K d (join_dkg K sha256 dkg_sign dkg_verify d p join run).0
    unfolding join_dkg
    join_dkg-IsSame d p lead join run quiet q =
        let begun = receiver_begin K d join.id in
        let same_begun : IsSame K d begun =
          unfold receiver_begin in record { share = refl; group = refl; dkg_done = refl } in
        elim (Result-cases (new_setup_receiver K sha256 dkg_verify p.info join.leader_identity)) [
          | inr (e, bad) ↦
              rw (bad, join_dkg) (λ h. record { share = refl; group = refl; dkg_done = refl })
          | inl (receiver, fine) ↦
              rw (fine, join_dkg)
                (λ h. ended d _ lead join quiet (
                  IsSame-trans K (IsSame-trans K same_begun (quiet.joins begun)) (
                    join_with-IsSame K (join.while_waiting begun) receiver join
                      (λ waited group. join_group K waited group join run) quiet.waits
                      (λ e g. join_group-IsSame e g join run quiet.checks q) h)))
        ]

    join_reshare-IsSame :
        (d : Drand K) (old : Group K) (p : ReshareCall) (lead : LeaderRun K) (join : JoinRun K)
        (run : DkgRun K)
        → IsQuietSetup K lead join
        → IsQuietRun K run
        → is_returned (join_reshare K sha256 dkg_sign dkg_verify d old false p join run).1 ≡ false
        → IsSame K d (join_reshare K sha256 dkg_sign dkg_verify d old false p join run).0
    unfolding join_reshare
    join_reshare-IsSame d old p lead join run quiet q =
        let sorted = (group_hash K old).1 in
        let begun = (reshare_receiver_begin K d join.id p.force).0 in
        let same_begun = reshare_receiver-IsSame K d join.id p.force in
        elim (Result-cases (reshare_receiver_begin K d join.id p.force).1) [
          | inr (e, busy) ↦ rw (busy, join_reshare) (λ h. same_begun)
          | inl (u, free) ↦
              elim (Result-cases
                (new_setup_receiver K sha256 dkg_verify p.packet.info join.leader_identity)) [
                  | inr (e, bad) ↦
                      rw (free, bad, join_reshare)
                        (λ h. record { share = refl; group = refl; dkg_done = refl })
                  | inl (receiver, fine) ↦
                      rw (free, fine, join_reshare)
                        (λ h. ended d _ lead join quiet (
                          IsSame-trans K (IsSame-trans K same_begun (quiet.joins begun)) (
                            join_with-IsSame K (join.while_waiting begun) receiver join
                              (λ waited group. join_new_group K waited sorted group join run)
                              quiet.waits
                              (λ e g. join_new_group-IsSame e sorted g join run quiet.checks q) h)))
                ]
        ]

    init_dkg-IsSame :
        (d : Drand K) (p : InitDkgPacket) (others : Drand K → Drand K) (lead : LeaderRun K)
        (join : JoinRun K) (run : DkgRun K)
        → IsQuiet K others
        → IsQuietSetup K lead join
        → IsQuietRun K run
        → is_returned (init_dkg K sha256 dkg_sign dkg_verify d p others lead join run).1 ≡ false
        → IsSame K d (init_dkg K sha256 dkg_sign dkg_verify d p others lead join run).0
    unfolding init_dkg
    init_dkg-IsSame d p others lead join run calm quiet q = elim (Result-cases (may_init_dkg K d)) [
      | inr (e, bad) ↦ rw (bad, init_dkg) (λ h. itself K d)
      | inl (u, fine) ↦ elim (Bool-cases p.leader) [
        | inl leads ↦
            rw (fine, leads, init_dkg)
              (λ h.
                IsSame-trans K (calm d) (
                  lead_dkg-IsSame K sha256 dkg_sign dkg_verify (others d) p lead join run quiet q
                    h))
        | inr joins ↦
            rw (fine, joins, init_dkg)
              (λ h. IsSame-trans K (calm d) (join_dkg-IsSame (others d) p lead join run quiet q h))
      ]
    ]

    init_reshare-IsSame :
        (d : Drand K) (loaded : Option (Group K)) (p : ReshareCall) (others : Drand K → Drand K)
        (kept : Bool) (lead : LeaderRun K) (now : ℤ) (join : JoinRun K) (run : DkgRun K)
        → is_some (loaded_group K loaded) ≡ true
        → IsQuiet K others
        → IsQuietSetup K lead join
        → IsQuietRun K run
        → (let step =
              init_reshare K sha256 dkg_sign dkg_verify d loaded p others kept lead now join run in
            is_returned step.1 ≡ false → IsSame K d step.0)
    unfolding init_reshare extract_group
    init_reshare-IsSame d loaded p others kept lead now join run brought calm quiet q =
        elim (Option-cases (loaded_group K loaded)) [
          | inl missing ↦ absurd (ground arith)
          | inr (old, there) ↦ elim (Bool-cases p.leader) [
            | inl leads ↦
                rw (there, leads, init_reshare, extract_group)
                  (λ h. IsSame-trans K (calm d) (
                    lead_reshare-IsSame K sha256 dkg_sign dkg_verify (others d) old p lead now join
                      run quiet q h))
            | inr joins ↦
                rw (there, joins, init_reshare, extract_group)
                  (λ h.
                    IsSame-trans K (calm d)
                      (join_reshare-IsSame (others d) old p lead join run quiet q h))
          ]
        ]

    unfoldable pub perform :
        Drand K
        → Call
        → (Drand K → Drand K)
        → LeaderRun K
        → JoinRun K
        → DkgRun K
        → Drand K × CallResult
    unfolding init_dkg init_reshare
    perform d (call_dkg p) others lead join run =
        init_dkg K sha256 dkg_sign dkg_verify d p others lead join run
    perform d (call_reshare loaded kept p now) others lead join run =
        init_reshare K sha256 dkg_sign dkg_verify d loaded p others kept lead now join run

    -- While the files can be saved and the other calls leave the share, the group and dkgDone of the
    -- daemon: a call of InitDKG, or one of InitReshare that brings a valid old group of its own, that
    -- returns no group leaves all three as they were, wherever it fails, waits on or follows a nil
    -- pointer. (Without an old group InitReshare takes the daemon's own, whose nodes Hash sorts in
    -- place.)
    pub perform-IsSame :
        (d : Drand K) (call : Call) (others : Drand K → Drand K) (lead : LeaderRun K)
        (join : JoinRun K) (run : DkgRun K)
        → brings_group call ≡ true
        → IsQuiet K others
        → IsQuietSetup K lead join
        → IsQuietRun K run
        → is_returned (perform d call others lead join run).1 ≡ false
        → IsSame K d (perform d call others lead join run).0
    unfolding perform
    perform-IsSame d (call_dkg p) others lead join run brought calm quiet q h =
        init_dkg-IsSame d p others lead join run calm quiet q h
    perform-IsSame d (call_reshare loaded kept p now) others lead join run brought calm quiet q h =
        init_reshare-IsSame d loaded p others kept lead now join run brought calm quiet q h
