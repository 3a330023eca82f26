-- ===== src/Core/Convert.antt =====
-- core/convert.go: the bundles of the key generation as packets. The points and scalars of kyber are
-- those of the record Suite.
pub mod RoundTrip
use drand.Prelude.{ℕ, Bool, Option, none, some, List, [], ◌∷◌, map, Result, ok, err, Bytes}
use drand.Key.Suite.{Suite}
use drand.Key.Wire.{points_from_proto}

pub record Deal : Type 0 where
  pub share_index : ℕ
  pub encrypted_share : Bytes

pub record Response : Type 0 where
  pub dealer_index : ℕ
  pub status : Bool

pub data ConvertError : Type 0 where
  invalid_public_coeff invalid_share unknown_packet : ConvertError

-- The packets of protobuf/crypto/dkg
pub record JustificationPacket : Type 0 where
  pub share_index : ℕ
  pub share : Bytes

pub data PacketBundle : Type 0 where
  packet_deal : ℕ → List Bytes → List Deal → Bytes → Bytes → PacketBundle
  packet_response : ℕ → List Response → Bytes → Bytes → PacketBundle
  packet_justification : ℕ → List JustificationPacket → Bytes → Bytes → PacketBundle

module _ (K : Suite) where
  pub record Justification : Type 0 where
    pub share_index : ℕ
    pub share : K.Scalar

  -- The bundles of kyber: an index, what the bundle carries, the session and the signature
  pub data Bundle : Type 0 where
    deal_bundle : ℕ → List K.Point → List Deal → Bytes → Bytes → Bundle
    response_bundle : ℕ → List Response → Bytes → Bytes → Bundle
    justification_bundle : ℕ → List Justification → Bytes → Bytes → Bundle

  -- The end of protoToDeal, once the coefficients are read
  unfoldable pub deal_of :
      ℕ → List Deal → Bytes → Bytes → Option (List K.Point) → Result ConvertError Bundle
  deal_of dealer deals session signature none = err invalid_public_coeff
  deal_of dealer deals session signature (some publics) =
      ok (deal_bundle dealer publics deals session signature)

  unfoldable pub proto_to_deal :
      ℕ → List Bytes → List Deal → Bytes → Bytes → Result ConvertError Bundle
  unfolding deal_of points_from_proto
  proto_to_deal dealer commits deals session signature =
      deal_of dealer deals session signature (points_from_proto K commits)

  abbrev pub proto_to_resp : ℕ → List Response → Bytes → Bytes → Bundle
  proto_to_resp share responses session signature =
      response_bundle share responses session signature

  -- The loop of protoToJustif, and its end
  unfoldable pub shares_from_proto : List JustificationPacket → Option (List Justification)
  shares_from_proto [] = some []
  shares_from_proto (j ∷ js) =
      let rest = shares_from_proto js in
      elim (K.unmarshal_scalar j.share) [
        | none ↦ none
        | some x ↦ elim rest [
          | none ↦ none
          | some xs ↦ some (record { share_index = j.share_index; share = x } ∷ xs)
        ]
      ]

  unfoldable pub justif_of :
      ℕ → Bytes → Bytes → Option (List Justification) → Result ConvertError Bundle
  justif_of dealer session signature none = err invalid_share
  justif_of dealer session signature (some js) =
      ok (justification_bundle dealer js session signature)

  unfoldable pub proto_to_justif :
      ℕ → List JustificationPacket → Bytes → Bytes → Result ConvertError Bundle
  unfolding justif_of shares_from_proto
  proto_to_justif dealer js session signature =
      justif_of dealer session signature (shares_from_proto js)

  -- protoToDKGPacket; none for a packet of another kind
  unfoldable pub proto_to_dkg_packet : Option PacketBundle → Result ConvertError Bundle
  unfolding proto_to_deal proto_to_justif
  proto_to_dkg_packet none = err unknown_packet
  proto_to_dkg_packet (some (packet_deal dealer commits deals session signature)) =
      proto_to_deal dealer commits deals session signature
  proto_to_dkg_packet (some (packet_response share responses session signature)) =
      ok (proto_to_resp share responses session signature)
  proto_to_dkg_packet (some (packet_justification dealer js session signature)) =
      proto_to_justif dealer js session signature

  abbrev pub share_to_proto : Justification → JustificationPacket
  share_to_proto j = record { share_index = j.share_index; share = K.marshal_scalar j.share }

  abbrev pub deal_to_proto : ℕ → List K.Point → List Deal → Bytes → Bytes → PacketBundle
  deal_to_proto dealer publics deals session signature =
      packet_deal dealer (map K.marshal publics) deals session signature

  abbrev pub resp_to_proto : ℕ → List Response → Bytes → Bytes → PacketBundle
  resp_to_proto share responses session signature =
      packet_response share responses session signature

  abbrev pub justif_to_proto : ℕ → List Justification → Bytes → Bytes → PacketBundle
  justif_to_proto dealer js session signature =
      packet_justification dealer (map share_to_proto js) session signature

  unfoldable pub dkg_packet_to_proto : Bundle → PacketBundle
  dkg_packet_to_proto (deal_bundle dealer publics deals session signature) =
      deal_to_proto dealer publics deals session signature
  dkg_packet_to_proto (response_bundle share responses session signature) =
      resp_to_proto share responses session signature
  dkg_packet_to_proto (justification_bundle dealer js session signature) =
      justif_to_proto dealer js session signature
