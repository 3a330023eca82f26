-- ===== src/Core/Commands/Complete.antt =====
-- core/drand.go, core/drand_control.go: the share and the group of a daemon go together.
use drand.Prelude.{
  ℕ, ◌≡◌, refl, sym, subst, inl, inr, Bool, true, false, ◌&&◌, ◌||◌, Option, none, some, Result, ok,
  err, arith, Bool-cases,
}
use drand.Key.Suite.{Suite}
use drand.Key.Identity.{share_public}
use drand.Key.Group.{Group}
use drand.Core.Daemon.{
  Drand, DkgInfo, DkgResult, cleanup_dkg, final_group, with_info, wait_dkg, run_dkg_begin,
  run_dkg_end, run_resharing_end,
}
use drand.Core.Daemon.Reshare.{receiver_begin}
use drand.Core.Commands.{
  StartError, no_certificate, no_gateway, no_store, not_a_member, bad_configuration, not_taken,
  nil_group, bad_file, no_peer_info, bad_hash_hex, other_chain, with_node, new_beacon, end_follow,
}
use drand.Core.Commands.Steps.{
  is_ok, Step, begins_setup, ends_setup, begins_dkg, waits, fails, ends, begins_resharing,
  fails_resharing, begins_receiving, begins_reshare_receiving, ends_receiving, accepts,
  accepts_resharing, begins_following, ends_following, starts, stops, Reach, here, then_step,
  IsComplete, same-IsComplete, leader_begin-IsSame, leader_end-IsSame, cleanup_dkg-IsSame,
  drop_info-IsSame, resharing_begin-IsSame, reshare_receiver-IsSame, receiver_end-IsSame,
  accept_group-IsSame, accept_reshare-IsSame, begin_follow-IsSame, new_beacon-IsSame,
  stop_beacon-IsSame,
}

-- The errors of a start without a group, and without a share
abbrev pub is_incomplete : {A : Type 0} → Result StartError A → Bool
is_incomplete (ok a) = false
is_incomplete (err nil_group) = true
is_incomplete (err bad_configuration) = true
is_incomplete (err no_certificate) = false
is_incomplete (err no_gateway) = false
is_incomplete (err no_store) = false
is_incomplete (err not_a_member) = false
is_incomplete (err not_taken) = false
is_incomplete (err (bad_file e)) = false
is_incomplete (err no_peer_info) = false
is_incomplete (err bad_hash_hex) = false
is_incomplete (err other_chain) = false

module _ (K : Suite) where
  unwaited : (d : Drand K) (b : Bool) → IsComplete K d b → IsComplete K d (b || false)
  unwaited d true c = c
  unwaited d false c = c

  -- The result of a key generation sets the share and the group together.
  finished-IsComplete :
      (d : Drand K) (b : Bool) (r : DkgResult K) (o : Option (ℕ × DkgInfo K))
      → IsComplete K d b
      → let t = with_info K d r true true o in IsComplete K t.0 (b || is_ok K t.1)
  unfolding with_info
  finished-IsComplete d b r none c = unwaited d b c
  finished-IsComplete d b r (some (id, info)) c =
      let grouped : Drand K = record d {
        share = some r.share;
        group = some (final_group K info.target r);
      } in
      same-IsComplete K grouped (cleanup_dkg K grouped) _ (cleanup_dkg-IsSame K grouped) (record {
        matched = λ s h.
            let same : r.share ≡ s = cc in
            (
              final_group K info.target r,
              refl,
              subst (λ t. some (share_public K r.share) ≡ some (share_public K t)) same refl,
            );
        kept = λ h. (r.share, refl);
        done = λ h. (r.share, refl);
      })

  wait-IsComplete :
      (d : Drand K) (b : Bool) (r : Option (DkgResult K))
      → IsComplete K d b
      → let t = wait_dkg K d r true true in IsComplete K t.0 (b || is_ok K t.1)
  unfolding wait_dkg
  wait-IsComplete d b none c = unwaited d b c
  wait-IsComplete d b (some r) c = finished-IsComplete d b r d.dkg_info c

  ended-IsComplete :
      (d : Drand K) (id : ℕ) (g : Group K)
      → IsComplete K d true
      → IsComplete K (run_dkg_end K id (d, ok g)).0 true
  unfolding run_dkg_end
  ended-IsComplete d id g c =
      let c' = same-IsComplete K d (cleanup_dkg K d) true (cleanup_dkg-IsSame K d) c in
      record { matched = c'.matched; kept = c'.kept; done = λ h. c'.kept refl }

  Step-IsComplete :
      (d d' : Drand K) (b b' : Bool) → IsComplete K d b → Step K d b d' b' → IsComplete K d' b'
  unfolding run_dkg_begin run_dkg_end run_resharing_end receiver_begin end_follow
  Step-IsComplete d d' b b' c (begins_setup id m) =
      same-IsComplete K d d' b (leader_begin-IsSame K d id m) c
  Step-IsComplete d d' b b' c (ends_setup id w) =
      same-IsComplete K d d' b (leader_end-IsSame K d id w) c
  Step-IsComplete d d' b b' c (begins_dkg id leader g) =
      same-IsComplete K d d' b (record { share = refl; group = refl; dkg_done = refl }) c
  Step-IsComplete d d' b b' c (waits r) = wait-IsComplete d b r c
  Step-IsComplete d d' b b' c (fails id e) = same-IsComplete K d d' b (drop_info-IsSame K d id) c
  Step-IsComplete d d' b b' c (ends id g waited) =
      subst (IsComplete K (run_dkg_end K id (d, ok g)).0) (sym waited)
        (ended-IsComplete d id g (subst (IsComplete K d) waited c))
  Step-IsComplete d d' b b' c (begins_resharing id leader old new) =
      same-IsComplete K d d' b (resharing_begin-IsSame K d id leader old new) c
  Step-IsComplete d d' b b' c (fails_resharing id e) =
      same-IsComplete K d d' b (drop_info-IsSame K d id) c
  Step-IsComplete d d' b b' c (begins_receiving id) =
      same-IsComplete K d d' b (record { share = refl; group = refl; dkg_done = refl }) c
  Step-IsComplete d d' b b' c (begins_reshare_receiving id force) =
      same-IsComplete K d d' b (reshare_receiver-IsSame K d id force) c
  Step-IsComplete d d' b b' c (ends_receiving id) =
      same-IsComplete K d d' b (receiver_end-IsSame K d id) c
  Step-IsComplete d d' b b' c (accepts g now) =
      same-IsComplete K d d' b (accept_group-IsSame K d g now) c
  Step-IsComplete d d' b b' c (accepts_resharing old g now) =
      same-IsComplete K d d' b (accept_reshare-IsSame K d old g now) c
  Step-IsComplete d d' b b' c begins_following =
      same-IsComplete K d d' b (begin_follow-IsSame K d) c
  Step-IsComplete d d' b b' c ends_following =
      same-IsComplete K d d' b (record { share = refl; group = refl; dkg_done = refl }) c
  Step-IsComplete d d' b b' c (starts opens takes) =
      same-IsComplete K d d' b (new_beacon-IsSame K d opens takes) c
  Step-IsComplete d d' b b' c stops = same-IsComplete K d d' b (stop_beacon-IsSame K d) c

  complete_starts :
      (d : Drand K) (b opens takes : Bool)
      → IsComplete K d b
      → (d.dkg_done && is_incomplete (new_beacon K d opens takes).1) ≡ false
  unfolding new_beacon with_node
  complete_starts d b opens takes c = elim (Bool-cases d.dkg_done) [
    | inr undone ↦ rw undone refl
    | inl done ↦
        let (s, share) = c.done done in let (g, group, _) = c.matched s share in ground arith
  ]

  -- However the calls of a daemon interleave, while its files can be saved: a share stands beside the
  -- group that has its public key, and once a key generation is done, the beacon never fails to start for
  -- a missing group or share. This holds at first, as it does for a new daemon.
  pub Reach-IsComplete :
      (d : Drand K) (b : Bool) (d' : Drand K) (b' : Bool)
      → IsComplete K d b
      → Reach K d b d' b'
      → (opens takes : Bool)
      → IsComplete K d' b'
        × ((d'.dkg_done && is_incomplete (new_beacon K d' opens takes).1) ≡ false)
  Reach-IsComplete d b d' b' c here opens takes = (c, complete_starts d b opens takes c)
  Reach-IsComplete d b d' b' c (then_step {m = m} {c = f} run step) opens takes =
      let c' = Step-IsComplete m d' f b' (Reach-IsComplete d b m f c run opens takes).0 step in
      (c', complete_starts d' b' opens takes c')
