-- ===== src/Key/Identity.antt =====
-- key/keys.go, key/encoding.go: the key pair of a node and its public identity.
use drand.Prelude.{
  ℕ, ◌++◌, Bool, true, false, not, ◌&&◌, Option, none, some, List, [], ◌∷◌, Result, ok, err, Bytes,
  bytes_equal, if◌then◌else◌,
}
use drand.Chain.Encoding.{lt_bytes}
use drand.Key.Suite.{Suite}

pub data KeyError : Type 0 where
  bad_address bad_key bad_hex bad_scalar : KeyError

module _ (K : Suite) where
  pub record Identity : Type 0 where
    pub key : K.Point
    pub addr : Bytes
    pub tls : Bool
    pub signature : Bytes

  pub record Pair : Type 0 where
    pub key : K.Scalar
    pub public : Identity

  -- Identity.Hash: the key alone
  unfoldable pub identity_hash : Identity → Bytes
  identity_hash i = K.blake2b (K.marshal i.key)

  -- ValidSignature() == nil
  unfoldable pub valid_signature : Identity → Bool
  unfolding identity_hash
  valid_signature i = K.auth_verify i.key (identity_hash i) i.signature

  -- Identity.Equal: the signature makes no difference.
  unfoldable pub identity_equal : Identity → Identity → Bool
  identity_equal i i2 =
      if not (bytes_equal i.addr i2.addr)
      then false
      else if not (if i.tls then i2.tls else not i2.tls)
      then false
      else if not (K.same_point i.key i2.key)
      then false
      else true

  -- SelfSign
  unfoldable pub self_sign : Pair → Pair
  unfolding identity_hash
  self_sign p =
      let id = p.public in
      record p { public = record id { signature = K.auth_sign p.key (identity_hash id) } }

  -- NewKeyPair, of the scalar that was picked
  unfoldable pub new_key_pair : K.Scalar → Bytes → Pair
  unfolding self_sign
  new_key_pair key address = self_sign (record {
    key = key;
    public = record { key = K.public_of key; addr = address; tls = false; signature = [] };
  })

  -- NewTLSKeyPair
  unfoldable pub new_tls_key_pair : K.Scalar → Bytes → Pair
  unfolding new_key_pair
  new_tls_key_pair key address =
      let kp = new_key_pair key address in
      let id = kp.public in self_sign (record kp { public = record id { tls = true } })

  -- ByKey.Less
  unfoldable pub less_key : Identity → Identity → Bool
  less_key i j = lt_bytes (K.marshal i.key) (K.marshal j.key)

  -- key/encoding.go
  unfoldable pub point_to_string : K.Point → Bytes
  point_to_string p = K.hex_encode (K.marshal p)

  unfoldable pub scalar_to_string : K.Scalar → Bytes
  scalar_to_string s = K.hex_encode (K.marshal_scalar s)

  unfoldable pub string_to_point : Bytes → Result KeyError K.Point
  string_to_point s = elim (K.hex_decode s) [
    | none ↦ err bad_hex
    | some buff ↦ elim (K.unmarshal buff) [ none ↦ err bad_key | some p ↦ ok p ]
  ]

  unfoldable pub string_to_scalar : Bytes → Result KeyError K.Scalar
  string_to_scalar s = elim (K.hex_decode s) [
    | none ↦ err bad_hex
    | some buff ↦ elim (K.unmarshal_scalar buff) [ none ↦ err bad_scalar | some x ↦ ok x ]
  ]

  -- The distributed public key
  pub record DistPublic : Type 0 where
    pub coefficients : List K.Point

  unfoldable pub marshal_all : List K.Point → Bytes
  marshal_all [] = []
  marshal_all (c ∷ cs) = K.marshal c ++ marshal_all cs

  unfoldable pub dist_hash : DistPublic → Bytes
  unfolding marshal_all
  dist_hash d = K.blake2b (marshal_all d.coefficients)

  -- DistPublic.Key; the read of an empty list panics, and gives none.
  unfoldable pub dist_key : DistPublic → Option K.Point
  dist_key d = elim d.coefficients [ [] ↦ none | c ∷ cs ↦ some c ]

  unfoldable pub same_points : List K.Point → List K.Point → Bool
  same_points [] [] = true
  same_points [] (q ∷ qs) = false
  same_points (p ∷ ps) [] = false
  same_points (p ∷ ps) (q ∷ qs) = K.same_point p q && same_points ps qs

  -- DistPublic.Equal
  unfoldable pub dist_equal : DistPublic → DistPublic → Bool
  unfolding same_points
  dist_equal d d2 = same_points d.coefficients d2.coefficients

  -- Share, the private share of a node with the commitments of the distributed polynomial
  pub record Share : Type 0 where
    pub commits : List K.Point
    pub index : ℕ
    pub value : K.Scalar

  -- Share.Public
  unfoldable pub share_public : Share → DistPublic
  share_public s = record { coefficients = s.commits }
