-- ===== src/Key/Suite.antt =====
-- What the package key takes from libraries: a group of kyber with the signatures of identities,
-- BLAKE2b, hexadecimal strings, and the address format of net. A Go `error` result is a Boolean, true
-- for nil, or none.
use drand.Prelude.Int.{ℤ}
use drand.Prelude.{◌≢◌, ℕ, ◌≡◌, ◌/◌, ◌%◌, zero, suc, Bool, Option, some, [], ◌∷◌, Bytes}

pub record Suite : Type 1 where
  pub Point : Type 0
  pub Scalar : Type 0
  -- Point.Equal
  pub same_point : Point → Point → Bool
  -- MarshalBinary and UnmarshalBinary
  pub marshal : Point → Bytes
  pub unmarshal : Bytes → Option Point
  pub marshal_scalar : Scalar → Bytes
  pub unmarshal_scalar : Bytes → Option Scalar
  -- KeyGroup.Point().Mul(key, nil)
  pub public_of : Scalar → Point
  -- blake2b.New256
  pub blake2b : Bytes → Bytes
  -- AuthScheme.Verify(key, msg, sig) == nil, and AuthScheme.Sign, its error dropped
  pub auth_verify : Point → Bytes → Bytes → Bool
  pub auth_sign : Scalar → Bytes → Bytes
  -- hex.EncodeToString and hex.DecodeString
  pub hex_encode : Bytes → Bytes
  pub hex_decode : Bytes → Option Bytes
  -- net.SplitHostPort gives no error
  pub is_host_port : Bytes → Bool
  pub unmarshal-marshal : (p : Point) → unmarshal (marshal p) ≡ some p
  pub unmarshal-marshal_scalar : (s : Scalar) → unmarshal_scalar (marshal_scalar s) ≡ some s
  pub hex_decode-hex_encode : (b : Bytes) → hex_decode (hex_encode b) ≡ some b
  pub hex_encode-empty : hex_encode [] ≡ []
  -- time.Duration.String and time.ParseDuration
  pub duration_string : ℤ → Bytes
  pub parse_duration : Bytes → Option ℤ
  pub parse_duration-duration_string : (d : ℤ) → parse_duration (duration_string d) ≡ some d
  pub duration_string-nonempty : (d : ℤ) → duration_string d ≢ []

-- binary.Write(h, binary.LittleEndian, v): the last bytes of a number, the lowest first
unfoldable pub little_endian : ℕ → ℕ → Bytes
little_endian zero v = []
little_endian (suc n) v = v % 256 ∷ little_endian n (v / 256)
