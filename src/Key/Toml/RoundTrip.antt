-- ===== src/Key/Toml/RoundTrip.antt =====
-- key/keys.go, key/group.go: what is read of a TOML structure is what was written.
use drand.Prelude.{
  ◌≡◌, ◌≢◌, ◌≤◌, refl, sym, ap, subst, false, Option, none, some, List, [], ◌∷◌, length, map, ltb,
  ok, Bytes, arith,
}
use drand.Prelude.Int.{ℤ}
use drand.Key.Suite.{Suite}
use drand.Key.Identity.{
  Identity, DistPublic, Share, point_to_string, scalar_to_string, string_to_point, string_to_scalar,
}
use drand.Key.Node.{Node}
use drand.Key.Group.{Group, minimum_t, get_genesis_seed}
use drand.Key.Toml.{
  identity_to_toml, identity_from_toml, with_signature_hex, decode_unless_empty, node_to_toml,
  node_from_toml, strings_to_points, share_to_toml, share_from_toml, dist_to_toml, dist_from_toml,
  group_to_toml, group_from_toml, nodes_from_toml, public_to_toml, public_from_toml,
  catchup_from_toml, seed_from_toml, with_periods, with_toml_nodes,
}

module _ (K : Suite) where
  point-back : (p : K.Point) → string_to_point K (point_to_string K p) ≡ ok p
  unfolding string_to_point point_to_string
  point-back p =
      rw (K.hex_decode-hex_encode (K.marshal p), K.unmarshal-marshal p, string_to_point) refl

  pub scalar-back : (s : K.Scalar) → string_to_scalar K (scalar_to_string K s) ≡ ok s
  unfolding string_to_scalar scalar_to_string
  scalar-back s =
      rw
        (
          K.hex_decode-hex_encode (K.marshal_scalar s),
          K.unmarshal-marshal_scalar s,
          string_to_scalar,
        )
        refl

  points-back : (ps : List K.Point) → strings_to_points K (map (point_to_string K) ps) ≡ ok ps
  unfolding strings_to_points
  points-back [] = refl
  points-back (p ∷ ps) = rw (point-back p, points-back ps, strings_to_points) refl

  -- A share is read as it was written.
  pub share_from_toml-share_to_toml : (s : Share K) → share_from_toml K (share_to_toml K s) ≡ ok s
  unfolding share_from_toml share_to_toml
  share_from_toml-share_to_toml s =
      rw (points-back s.commits, scalar-back s.value, share_from_toml) refl

  -- An empty string decodes as one that is not looked at.
  empty-hex : (b : Bytes) → K.hex_encode b ≡ [] → b ≡ []
  empty-hex b e =
      let read : K.hex_decode [] ≡ some b =
        subst (λ t. K.hex_decode t ≡ some b) e (K.hex_decode-hex_encode b) in
      let read' : K.hex_decode [] ≡ some [] =
        subst (λ t. K.hex_decode t ≡ some []) K.hex_encode-empty (K.hex_decode-hex_encode []) in
      cc

  signature-back : (b h : Bytes) → K.hex_encode b ≡ h → decode_unless_empty K h ≡ some b
  signature-back b [] e = ap some (sym (empty-hex b e))
  signature-back b (x ∷ xs) e = subst (λ t. K.hex_decode t ≡ some b) e (K.hex_decode-hex_encode b)

  pub identity-back : (i : Identity K) → identity_from_toml K (identity_to_toml K i) ≡ ok i
  unfolding identity_from_toml identity_to_toml with_signature_hex
  identity-back i =
      rw
        (
          point-back i.key,
          signature-back i.signature (K.hex_encode i.signature) refl,
          identity_from_toml,
        )
        refl

  node-back : (n : Node K) → node_from_toml K (node_to_toml K n) ≡ ok n
  unfolding node_from_toml node_to_toml
  node-back n = rw (identity-back n.identity, node_from_toml) refl

  nodes-back : (ns : List (Node K)) → nodes_from_toml K (map (node_to_toml K) ns) ≡ ok ns
  unfolding nodes_from_toml
  nodes-back [] = refl
  nodes-back (n ∷ ns) = rw (node-back n, nodes-back ns, nodes_from_toml) refl

  public-back : (o : Option (DistPublic K)) → public_from_toml K (public_to_toml K o) ≡ ok o
  unfolding dist_from_toml dist_to_toml
  public-back none = refl
  public-back (some d) = rw (points-back d.coefficients, public_from_toml, dist_from_toml) refl

  catchup-back : (d : ℤ) (s : Bytes) → K.duration_string d ≡ s → catchup_from_toml K s ≡ some d
  catchup-back d [] e = absurd (K.duration_string-nonempty d e)
  catchup-back d (x ∷ xs) e =
      subst (λ t. K.parse_duration t ≡ some d) e (K.parse_duration-duration_string d)

  seed-back : (b h : Bytes) → b ≢ [] → K.hex_encode b ≡ h → seed_from_toml K h ≡ some (some b)
  seed-back b [] some_seed e = absurd (some_seed (empty-hex b e))
  seed-back b (x ∷ xs) some_seed e =
      let read = subst (λ t. K.hex_decode t ≡ some b) e (K.hex_decode-hex_encode b) in
      rw (read, seed_from_toml) refl

  -- A group is read as it was written, with its seed set, for a threshold from the minimum to the number
  -- of nodes and a seed that is not empty.
  pub group_from_toml-group_to_toml :
      (g : Group K)
      → minimum_t (length g.nodes) ≤ g.threshold
      → g.threshold ≤ length g.nodes
      → (get_genesis_seed K g).0 ≢ []
      → group_from_toml K (group_to_toml K g)
        ≡ ok (record g { genesis_seed = some (get_genesis_seed K g).0 })
  unfolding group_from_toml group_to_toml with_toml_nodes with_periods
  group_from_toml-group_to_toml g enough few some_seed =
      let low : ltb g.threshold (minimum_t (length g.nodes)) ≡ false = ground arith in
      let high : ltb (length g.nodes) g.threshold ≡ false = ground arith in
      let seed = (get_genesis_seed K g).0 in
      rw (nodes-back g.nodes) (
        rw (low, high)
          (rw (public-back g.public_key) (
            rw (K.parse_duration-duration_string g.period) (
              rw (catchup-back g.catchup_period (K.duration_string g.catchup_period) refl)
                (rw (seed-back seed (K.hex_encode seed) some_seed refl) refl)))))
