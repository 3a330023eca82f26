-- ===== src/Key/Wire.antt =====
-- key/keys.go, key/node.go, key/group.go: identities, nodes and groups as the packets of the protocol. The
-- fields of a packet are uint32 and uint64, and bytes; unset bytes are none.
pub mod RoundTrip
use drand.Prelude.{
  ℕ, ◌+◌, ◌*◌, ◌%◌, ◌^◌, Bool, true, false, not, Option, none, some, List, [], ◌∷◌, length, map,
  ltb, ◌==◌, if◌then◌else◌, Result, ok, err, Bytes,
}
use drand.Prelude.Int.{ℤ, pos, eq_ℤ}
use drand.Prelude.Words.{to_int64, to_uint64}
use drand.Chain.Time.{whole_seconds}
use drand.Key.Suite.{Suite}
use drand.Key.Identity.{KeyError, bad_address, bad_key, Identity, DistPublic}
use drand.Key.Node.{Node}
use drand.Key.Group.{Group, minimum_t, get_genesis_seed}

pub record IdentityPacket : Type 0 where
  pub address : Bytes
  pub key : Bytes
  pub tls : Bool
  pub signature : Bytes

pub record NodePacket : Type 0 where
  pub public : IdentityPacket
  pub index : ℕ

pub record GroupPacket : Type 0 where
  pub nodes : List NodePacket
  pub threshold : ℕ
  pub period : ℕ
  pub catchup_period : ℕ
  pub genesis_time : ℕ
  pub transition_time : ℕ
  pub genesis_seed : Option Bytes
  pub dist_key : List Bytes

pub data WireError : Type 0 where
  invalid_node : KeyError → WireError
  invalid_threshold genesis_time_zero period_zero invalid_coefficients coefficients_length :
      WireError

module _ (K : Suite) where
  -- Identity.ToProto
  unfoldable pub identity_to_proto : Identity K → IdentityPacket
  identity_to_proto i = record {
    address = i.addr;
    key = K.marshal i.key;
    tls = i.tls;
    signature = i.signature;
  }

  -- IdentityFromProto
  unfoldable pub identity_of : IdentityPacket → Option K.Point → Result KeyError (Identity K)
  identity_of n none = err bad_key
  identity_of n (some public) =
      ok (record { key = public; addr = n.address; tls = n.tls; signature = n.signature })

  unfoldable pub identity_from_proto : IdentityPacket → Result KeyError (Identity K)
  unfolding identity_of
  identity_from_proto n =
      if not (K.is_host_port n.address) then err bad_address else identity_of n (K.unmarshal n.key)

  -- NodeFromProto
  unfoldable pub node_of : NodePacket → Result KeyError (Identity K) → Result KeyError (Node K)
  node_of n (err e) = err e
  node_of n (ok id) = ok (record { identity = id; index = n.index })

  unfoldable pub node_from_proto : NodePacket → Result KeyError (Node K)
  unfolding node_of identity_from_proto
  node_from_proto n = node_of n (identity_from_proto n.public)

  unfoldable pub nodes_from_proto : List NodePacket → Result KeyError (List (Node K))
  unfolding node_from_proto
  nodes_from_proto [] = ok []
  nodes_from_proto (n ∷ ns) =
      let rest = nodes_from_proto ns in
      elim (node_from_proto n) [
        | err e ↦ err e
        | ok kid ↦ elim rest [ err e ↦ err e | ok nodes ↦ ok (kid ∷ nodes) ]
      ]

  unfoldable pub points_from_proto : List Bytes → Option (List K.Point)
  points_from_proto [] = some []
  points_from_proto (c ∷ cs) =
      let rest = points_from_proto cs in
      elim (K.unmarshal c) [
        | none ↦ none
        | some p ↦ elim rest [ none ↦ none | some ps ↦ some (p ∷ ps) ]
      ]

  abbrev pub received_group : GroupPacket → List (Node K) → Option (DistPublic K) → Group K
  received_group g nodes dist = record {
    threshold = g.threshold;
    period = pos (g.period * 1000000000);
    catchup_period = pos (g.catchup_period * 1000000000);
    nodes = nodes;
    genesis_time = to_int64 g.genesis_time;
    genesis_seed = g.genesis_seed;
    transition_time = to_int64 g.transition_time;
    public_key = dist;
  }

  -- GroupFromProto, from the coefficients on
  unfoldable pub with_coefficients :
      GroupPacket → List (Node K) → Option (List K.Point) → Result WireError (Group K)
  with_coefficients g nodes none = err invalid_coefficients
  with_coefficients g nodes (some []) = ok (received_group g nodes none)
  with_coefficients g nodes (some (c ∷ cs)) =
      if not (length (c ∷ cs) == g.threshold)
      then err coefficients_length
      else ok (received_group g nodes (some (record { coefficients = c ∷ cs })))

  unfoldable pub with_nodes :
      GroupPacket → Result KeyError (List (Node K)) → Result WireError (Group K)
  unfolding with_coefficients points_from_proto minimum_t
  with_nodes g (err e) = err (invalid_node e)
  with_nodes g (ok nodes) =
      if ltb g.threshold (minimum_t (length nodes))
      then err invalid_threshold
      else if eq_ℤ (to_int64 g.genesis_time) (pos 0)
      then err genesis_time_zero
      else if g.period == 0
      then err period_zero
      else with_coefficients g nodes (points_from_proto g.dist_key)

  unfoldable pub group_from_proto : GroupPacket → Result WireError (Group K)
  unfolding with_nodes nodes_from_proto
  group_from_proto g = with_nodes g (nodes_from_proto g.nodes)

  abbrev pub node_to_proto : Node K → NodePacket
  node_to_proto n =
      let id = n.identity in
      record {
        public = record {
          address = id.addr;
          key = K.marshal id.key;
          tls = id.tls;
          signature = id.signature;
        };
        index = n.index;
      }

  abbrev pub dist_to_proto : Option (DistPublic K) → List Bytes
  dist_to_proto none = []
  dist_to_proto (some d) = map K.marshal d.coefficients

  -- Group.ToProto: the packet, and the group, which has its seed then
  unfoldable pub group_to_proto : Group K → GroupPacket × Group K
  unfolding get_genesis_seed whole_seconds
  group_to_proto g =
      let (seed, g') = get_genesis_seed K g in
      (
        record {
          nodes = map node_to_proto g.nodes;
          threshold = g.threshold % 2 ^ 32;
          period = whole_seconds g.period % 2 ^ 32;
          catchup_period = whole_seconds g.catchup_period % 2 ^ 32;
          genesis_time = to_uint64 g.genesis_time;
          transition_time = to_uint64 g.transition_time;
          genesis_seed = some seed;
          dist_key = dist_to_proto g'.public_key;
        },
        g',
      )
