-- ===== src/Key/Toml.antt =====
-- key/keys.go, key/node.go, key/group.go: keys, nodes and groups as the structures of their TOML files.
pub mod RoundTrip
use drand.Prelude.{
  ℕ, ◌+◌, Bool, true, false, not, Option, none, some, List, [], ◌∷◌, length, map, ltb, ◌==◌,
  if◌then◌else◌, Result, ok, err, Bytes,
}
use drand.Prelude.Int.{ℤ, pos, eq_ℤ}
use drand.Key.Suite.{Suite}
use drand.Key.Identity.{
  KeyError, bad_hex, Identity, Pair, DistPublic, Share, point_to_string, scalar_to_string,
  string_to_point, string_to_scalar,
}
use drand.Key.Node.{Node}
use drand.Key.Group.{Group, minimum_t, get_genesis_seed}

pub record PublicToml : Type 0 where
  pub address : Bytes
  pub key : Bytes
  pub tls : Bool
  pub signature : Bytes

pub record PairToml : Type 0 where
  pub key : Bytes

pub record NodeToml : Type 0 where
  pub public : PublicToml
  pub index : ℕ

pub record ShareToml : Type 0 where
  pub index : ℕ
  pub share : Bytes
  pub commits : List Bytes

pub record DistPublicToml : Type 0 where
  pub coefficients : List Bytes

pub record GroupToml : Type 0 where
  pub threshold : ℕ
  pub period : Bytes
  pub catchup_period : Bytes
  pub nodes : List NodeToml
  pub genesis_time : ℤ
  pub transition_time : ℤ
  pub genesis_seed : Bytes
  pub public_key : Option DistPublicToml

pub data TomlError : Type 0 where
  bad_node bad_public : KeyError → TomlError
  threshold_too_low threshold_too_high bad_duration bad_seed : TomlError

module _ (K : Suite) where
  -- Identity.TOML
  unfoldable pub identity_to_toml : Identity K → PublicToml
  unfolding point_to_string
  identity_to_toml i = record {
    address = i.addr;
    key = point_to_string K i.key;
    tls = i.tls;
    signature = K.hex_encode i.signature;
  }

  -- Identity.FromTOML
  unfoldable pub with_signature_hex :
      PublicToml → K.Point → Option Bytes → Result KeyError (Identity K)
  with_signature_hex t key none = err bad_hex
  with_signature_hex t key (some signature) =
      ok (record { key = key; addr = t.address; tls = t.tls; signature = signature })

  abbrev pub decode_unless_empty : Bytes → Option Bytes
  decode_unless_empty [] = some []
  decode_unless_empty (x ∷ xs) = K.hex_decode (x ∷ xs)

  unfoldable pub identity_from_toml : PublicToml → Result KeyError (Identity K)
  unfolding string_to_point with_signature_hex
  identity_from_toml t = elim (string_to_point K t.key) [
    | err e ↦ err e
    | ok key ↦ with_signature_hex t key (decode_unless_empty t.signature)
  ]

  -- Pair.TOML and FromTOML, of the key alone
  unfoldable pub pair_to_toml : Pair K → PairToml
  unfolding scalar_to_string
  pair_to_toml p = record { key = scalar_to_string K p.key }

  unfoldable pub pair_from_toml : PairToml → Result KeyError K.Scalar
  unfolding string_to_scalar
  pair_from_toml t = string_to_scalar K t.key

  -- Node.TOML and FromTOML
  unfoldable pub node_to_toml : Node K → NodeToml
  unfolding identity_to_toml
  node_to_toml n = record { public = identity_to_toml n.identity; index = n.index }

  unfoldable pub node_from_toml : NodeToml → Result KeyError (Node K)
  unfolding identity_from_toml
  node_from_toml t = elim (identity_from_toml t.public) [
    | err e ↦ err e
    | ok id ↦ ok (record { identity = id; index = t.index })
  ]

  unfoldable pub strings_to_points : List Bytes → Result KeyError (List K.Point)
  unfolding string_to_point
  strings_to_points [] = ok []
  strings_to_points (s ∷ ss) =
      let rest = strings_to_points ss in
      elim (string_to_point K s) [
        | err e ↦ err e
        | ok p ↦ elim rest [ err e ↦ err e | ok ps ↦ ok (p ∷ ps) ]
      ]

  -- Share.TOML and FromTOML
  unfoldable pub share_to_toml : Share K → ShareToml
  unfolding point_to_string scalar_to_string
  share_to_toml s = record {
    index = s.index;
    share = scalar_to_string K s.value;
    commits = map (point_to_string K) s.commits;
  }

  unfoldable pub share_from_toml : ShareToml → Result KeyError (Share K)
  unfolding strings_to_points string_to_scalar
  share_from_toml t = elim (strings_to_points t.commits) [
    | err e ↦ err e
    | ok commits ↦ elim (string_to_scalar K t.share) [
      | err e ↦ err e
      | ok value ↦ ok (record { commits = commits; index = t.index; value = value })
    ]
  ]

  -- DistPublic.TOML and FromTOML
  unfoldable pub dist_to_toml : DistPublic K → DistPublicToml
  unfolding point_to_string
  dist_to_toml d = record { coefficients = map (point_to_string K) d.coefficients }

  unfoldable pub dist_from_toml : DistPublicToml → Result KeyError (DistPublic K)
  unfolding strings_to_points
  dist_from_toml t = elim (strings_to_points t.coefficients) [
    | err e ↦ err e
    | ok ps ↦ ok (record { coefficients = ps })
  ]

  -- Group.TOML; the group holds its seed from then on, and its nodes may be sorted by it.
  abbrev pub public_to_toml : Option (DistPublic K) → Option DistPublicToml
  public_to_toml none = none
  public_to_toml (some d) = some (dist_to_toml d)

  unfoldable pub group_to_toml : Group K → GroupToml
  unfolding node_to_toml dist_to_toml get_genesis_seed
  group_to_toml g = record {
    threshold = g.threshold;
    period = K.duration_string g.period;
    catchup_period = K.duration_string g.catchup_period;
    nodes = map node_to_toml g.nodes;
    genesis_time = g.genesis_time;
    transition_time = g.transition_time;
    genesis_seed = K.hex_encode (get_genesis_seed K g).0;
    public_key = public_to_toml g.public_key;
  }

  unfoldable pub nodes_from_toml : List NodeToml → Result KeyError (List (Node K))
  unfolding node_from_toml
  nodes_from_toml [] = ok []
  nodes_from_toml (t ∷ ts) =
      let rest = nodes_from_toml ts in
      elim (node_from_toml t) [
        | err e ↦ err e
        | ok n ↦ elim rest [ err e ↦ err e | ok ns ↦ ok (n ∷ ns) ]
      ]

  abbrev pub public_from_toml : Option DistPublicToml → Result KeyError (Option (DistPublic K))
  public_from_toml none = ok none
  public_from_toml (some t) = elim (dist_from_toml t) [ err e ↦ err e | ok d ↦ ok (some d) ]

  abbrev pub catchup_from_toml : Bytes → Option ℤ
  catchup_from_toml [] = some (pos 0)
  catchup_from_toml (x ∷ xs) = K.parse_duration (x ∷ xs)

  abbrev pub seed_from_toml : Bytes → Option (Option Bytes)
  seed_from_toml [] = some none
  seed_from_toml (x ∷ xs) = elim (K.hex_decode (x ∷ xs)) [ none ↦ none | some s ↦ some (some s) ]

  -- Group.FromTOML of a new group, from the periods on
  unfoldable pub with_periods :
      GroupToml
      → List (Node K)
      → Option (DistPublic K)
      → Option ℤ
      → Option ℤ
      → Option (Option Bytes)
      → Result TomlError (Group K)
  with_periods t nodes public none catchup seed = err bad_duration
  with_periods t nodes public (some period) none seed = err bad_duration
  with_periods t nodes public (some period) (some catchup) none = err bad_seed
  with_periods t nodes public (some period) (some catchup) (some seed) = ok (record {
    threshold = t.threshold;
    period = period;
    catchup_period = catchup;
    nodes = nodes;
    genesis_time = t.genesis_time;
    genesis_seed = seed;
    transition_time = t.transition_time;
    public_key = public;
  })

  unfoldable pub with_toml_nodes :
      GroupToml → Result KeyError (List (Node K)) → Result TomlError (Group K)
  unfolding with_periods minimum_t
  with_toml_nodes t (err e) = err (bad_node e)
  with_toml_nodes t (ok nodes) =
      if ltb t.threshold (minimum_t (length nodes))
      then err threshold_too_low
      else if ltb (length nodes) t.threshold
      then err threshold_too_high
      else elim (public_from_toml t.public_key) [
        | err e ↦ err (bad_public e)
        | ok public ↦
            with_periods t nodes public (K.parse_duration t.period)
              (catchup_from_toml t.catchup_period) (seed_from_toml t.genesis_seed)
      ]

  unfoldable pub group_from_toml : GroupToml → Result TomlError (Group K)
  unfolding with_toml_nodes nodes_from_toml
  group_from_toml t = with_toml_nodes t (nodes_from_toml t.nodes)
