-- ===== src/Core/Convert/RoundTrip.antt =====
-- core/convert.go: a bundle survives the way over the wire.
use drand.Prelude.{◌≡◌, refl, some, List, [], ◌∷◌, map, ok}
use drand.Key.Suite.{Suite}
use drand.Key.Wire.RoundTrip.{points-back}
use drand.Core.Convert.{
  Justification, Bundle, deal_bundle, response_bundle, justification_bundle, deal_of, justif_of,
  shares_from_proto, share_to_proto, proto_to_dkg_packet, dkg_packet_to_proto,
}

module _ (K : Suite) where
  shares-back :
      (js : List (Justification K)) → shares_from_proto K (map (share_to_proto K) js) ≡ some js
  unfolding shares_from_proto
  shares-back [] = refl
  shares-back (j ∷ js) =
      rw (K.unmarshal-marshal_scalar j.share, shares-back js, shares_from_proto) refl

  -- What arrives of a bundle that is sent is the bundle.
  pub proto_to_dkg_packet-dkg_packet_to_proto :
      (b : Bundle K) → proto_to_dkg_packet K (some (dkg_packet_to_proto K b)) ≡ ok b
  unfolding proto_to_dkg_packet dkg_packet_to_proto deal_of justif_of
  proto_to_dkg_packet-dkg_packet_to_proto (deal_bundle dealer publics deals session signature) =
      rw (points-back K publics) refl
  proto_to_dkg_packet-dkg_packet_to_proto (response_bundle share responses session signature) = refl
  proto_to_dkg_packet-dkg_packet_to_proto (justification_bundle dealer js session signature) =
      rw (shares-back js) refl
