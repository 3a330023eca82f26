-- ===== src/Core/Calls/Led.antt =====
-- core/drand_control.go: what the leader of a setup leaves of its daemon when it gives no group.
use drand.Prelude.{◌≡◌, inl, inr, Bool, true, false, Option, Bytes, Result-cases}
use drand.Prelude.Int.{ℤ}
use drand.Key.Suite.{Suite}
use drand.Key.Group.{Group, group_hash}
use drand.Core.Setup.{new_dkg_setup, new_reshare_setup}
use drand.Core.Daemon.{Drand}
use drand.Core.Daemon.Reshare.{check_leader_group}
use drand.Core.Commands.Steps.{IsSame}
use drand.Core.Calls.{
  InitDkgPacket, DkgRun, LeaderRun, JoinRun, leader_run_setup, pushed_group, lead_dkg, run_dkg,
}
use drand.Core.Calls.Reshare.{ReshareCall, run_resharing, lead_reshare}
use drand.Core.Calls.Unchanged.{
  is_returned, IsQuiet, IsQuietRun, IsSame-trans, run_dkg-IsSame, run_resharing-IsSame,
  leader_run_setup-IsSame, after_push-IsSame,
}

module _ (K : Suite) where
  -- The other calls are quiet while a setup is led or joined.
  pub record IsQuietSetup (lead : LeaderRun K) (join : JoinRun K) : Type 0 where
    pub leads : IsQuiet K lead.while_waiting
    pub pushes : IsQuiet K lead.after_setup
    pub joins : IsQuiet K join.while_waiting
    pub waits : IsQuiet K join.after_wait
    pub checks : IsQuiet K join.after_check
    pub ends : IsQuiet K join.at_end

  module _ (sha256 : Bytes → Bytes) (dkg_sign : Bytes → Option Bytes)
      (dkg_verify : K.Point → Bytes → Bytes → Bool) where
    pub lead_dkg-IsSame :
        (d : Drand K) (p : InitDkgPacket) (lead : LeaderRun K) (join : JoinRun K) (run : DkgRun K)
        → IsQuietSetup lead join
        → IsQuietRun K run
        → is_returned (lead_dkg K sha256 dkg_sign dkg_verify d p lead run).1 ≡ false
        → IsSame K d (lead_dkg K sha256 dkg_sign dkg_verify d p lead run).0
    unfolding lead_dkg
    lead_dkg-IsSame d p lead join run quiet q =
        let setup = new_dkg_setup K sha256 d.own p.beacon_period p.catchup_period p.info in
        let led = (leader_run_setup K d setup lead).0 in
        let same = leader_run_setup-IsSame K d setup lead quiet.leads in
        elim (Result-cases (leader_run_setup K d setup lead).1) [
          | inr (e, bad) ↦ rw (bad, lead_dkg) (λ h. same)
          | inl (group, fine) ↦
              rw (fine, lead_dkg)
                (λ h. IsSame-trans K (IsSame-trans K same (quiet.pushes led)) (
                  after_push-IsSame K (lead.after_setup led) _
                    (λ pushed. run_dkg K pushed true (pushed_group K group) run)
                    (run_dkg-IsSame K (lead.after_setup led) true (pushed_group K group) run q) h))
        ]

    pub lead_reshare-IsSame :
        (d : Drand K) (old : Group K) (p : ReshareCall) (lead : LeaderRun K) (now : ℤ)
        (join : JoinRun K) (run : DkgRun K)
        → IsQuietSetup lead join
        → IsQuietRun K run
        → is_returned (lead_reshare K sha256 dkg_sign dkg_verify d old false p lead now run).1
          ≡ false
        → IsSame K d (lead_reshare K sha256 dkg_sign dkg_verify d old false p lead now run).0
    unfolding lead_reshare
    lead_reshare-IsSame d old p lead now join run quiet q =
        let setup = new_reshare_setup K sha256 d.own old p.packet in
        let sorted = (group_hash K old).1 in
        let led = (leader_run_setup K d setup lead).0 in
        let same =
          IsSame-trans K (leader_run_setup-IsSame K d setup lead quiet.leads) (quiet.pushes led) in
        elim (Result-cases (leader_run_setup K d setup lead).1) [
          | inr (e, bad) ↦
              rw (bad, lead_reshare) (λ h. leader_run_setup-IsSame K d setup lead quiet.leads)
          | inl (group, fine) ↦ elim (Result-cases (check_leader_group K sorted group now)) [
            | inr (e, wrong) ↦ rw (fine, wrong, lead_reshare) (λ h. same)
            | inl (u, right) ↦
                rw (fine, right, lead_reshare)
                  (λ h. IsSame-trans K same (
                    after_push-IsSame K (lead.after_setup led) _
                      (λ pushed. run_resharing K pushed true sorted (pushed_group K group) run)
                      (run_resharing-IsSame K (lead.after_setup led) true sorted
                        (pushed_group K group) run q)
                      h))
          ]
        ]
