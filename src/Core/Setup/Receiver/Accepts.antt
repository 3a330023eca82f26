-- ===== src/Core/Setup/Receiver/Accepts.antt =====
-- core/group_setup.go: what a node makes of a group that the leader pushed.
use drand.Prelude.{
  ℕ, ◌≡◌, refl, ap, ◌∙◌, Bool, true, some, [], ◌∷◌, ◌++◌, ok, Bytes, bytes_equal, bytes_equal_refl,
}
use drand.Key.Suite.{Suite}
use drand.Key.Group.{Group, group_hash, get_genesis_seed, by_index}
use drand.Key.Wire.{group_to_proto}
use drand.Key.Wire.RoundTrip.{IsSendable, group_from_proto-group_to_proto}
use drand.Core.Setup.{correct_secret}
use drand.Core.Setup.Receiver.{SetupReceiver, DkgInfoPacket, push_dkg_info, with_group}

module _ (K : Suite) (sha256 : Bytes → Bytes) (dkg_verify : K.Point → Bytes → Bytes → Bool) where
  -- The packet in which a leader pushes a group
  abbrev pub pushed : Group K → Bytes → ℕ → Bytes → DkgInfoPacket
  pushed g secret timeout signature = record {
    new_group = (group_to_proto K g).0;
    secret_proof = secret;
    dkg_timeout = timeout;
    signature = signature;
  }

  -- The group as it arrives: with its seed, and the nodes in the order of their indices
  abbrev pub arrived : Group K → Group K
  arrived g = record g { genesis_seed = some (get_genesis_seed K g).0; nodes = by_index K g.nodes }

  signed_group :
      (r : SetupReceiver K) (pg : DkgInfoPacket) (g : Group K)
      → (let id = r.leader_id in dkg_verify id.key (group_hash K g).0 pg.signature ≡ true)
      → with_group K sha256 dkg_verify r pg (ok g)
        ≡ ok (record r {
          ch = r.ch ++ record { group = (group_hash K g).1; timeout = pg.dkg_timeout } ∷ [];
        })
  unfolding with_group
  signed_group r pg g signed = rw signed refl

  -- A node accepts a group that a leader pushes with the secret of the setup and its signature upon the
  -- hash of the group, and hands on that group.
  pub push_dkg_info-arrived :
      (r : SetupReceiver K) (g : Group K) (secret signature : Bytes) (timeout : ℕ)
      → IsSendable K g
      → r.secret ≡ sha256 secret
      → (let id = r.leader_id in dkg_verify id.key (group_hash K g).0 signature ≡ true)
      → push_dkg_info K sha256 dkg_verify r (pushed g secret timeout signature)
        ≡ ok (record r { ch = r.ch ++ record { group = arrived g; timeout = timeout } ∷ [] })
  unfolding push_dkg_info correct_secret
  push_dkg_info-arrived r g secret signature timeout sendable same signed =
      let right : bytes_equal r.secret (sha256 secret) ≡ true =
        ap (λ t. bytes_equal t (sha256 secret)) same ∙ bytes_equal_refl (sha256 secret) in
      let g' : Group K = record g { genesis_seed = some (get_genesis_seed K g).0 } in
      rw right (
        rw (group_from_proto-group_to_proto K g sendable)
          (unfold group_hash in signed_group r (pushed g secret timeout signature) g' signed))
