-- ===== src/Chain/Info.antt =====
-- chain/info.go, chain/convert.go: what a client knows of a chain, its hash, and its packet. SHA-256 is a
-- parameter.
pub mod Order
use drand.Prelude.{
  ℕ, [], ◌∷◌, ◌*◌, ◌%◌, ◌^◌, ◌≡◌, refl, Bool, ◌&&◌, Option, none, some, List, ◌++◌, Result, ok, err,
  Bytes, bytes_equal,
}
use drand.Prelude.Int.{ℤ, pos, eq_ℤ}
use drand.Prelude.Words.{to_uint64}
use drand.Chain.Encoding.{big_endian}
use drand.Chain.Time.{whole_seconds}
use drand.Key.Suite.{Suite}
use drand.Key.Identity.{KeyError, bad_key, dist_key}
use drand.Key.Group.{Group, get_genesis_seed}
use drand.Key.Wire.RoundTrip.{IsSeconds, seconds_back}

-- drand.ChainInfoPacket
pub record ChainInfoPacket : Type 0 where
  pub public_key : Bytes
  pub genesis_time : ℤ
  pub period : ℕ
  pub hash : Bytes
  pub group_hash : Bytes

module _ (K : Suite) (sha256 : Bytes → Bytes) where
  pub record ChainInfo : Type 0 where
    pub public_key : K.Point
    pub period : ℤ
    pub genesis_time : ℤ
    pub group_hash : Bytes

  -- NewChainInfo; a group without a key, or with an empty one, panics, and gives none.
  unfoldable pub info_of_key : Group K → Option K.Point → Option ChainInfo
  unfolding get_genesis_seed
  info_of_key g none = none
  info_of_key g (some key) = some (record {
    public_key = key;
    period = g.period;
    genesis_time = g.genesis_time;
    group_hash = (get_genesis_seed K g).0;
  })

  unfoldable pub new_chain_info : Group K → Option ChainInfo
  unfolding info_of_key dist_key
  new_chain_info g = elim g.public_key [ none ↦ none | some d ↦ info_of_key g (dist_key K d) ]

  -- Info.Hash
  unfoldable pub info_hash : ChainInfo → Bytes
  unfolding big_endian whole_seconds
  info_hash c = sha256 (
      big_endian 4 (whole_seconds c.period % 2 ^ 32)
      ++ big_endian 8 (to_uint64 c.genesis_time)
      ++ K.marshal c.public_key
      ++ c.group_hash)

  -- Info.Equal
  unfoldable pub info_equal : ChainInfo → ChainInfo → Bool
  info_equal c c2 =
      eq_ℤ c.genesis_time c2.genesis_time
      && eq_ℤ c.period c2.period
      && K.same_point c.public_key c2.public_key
      && bytes_equal c.group_hash c2.group_hash

  -- InfoFromProto
  unfoldable pub info_with_key : ChainInfoPacket → Option K.Point → Result KeyError ChainInfo
  info_with_key p none = err bad_key
  info_with_key p (some public) = ok (record {
    public_key = public;
    period = pos (p.period * 1000000000);
    genesis_time = p.genesis_time;
    group_hash = p.group_hash;
  })

  unfoldable pub info_from_proto : ChainInfoPacket → Result KeyError ChainInfo
  unfolding info_with_key
  info_from_proto p = info_with_key p (K.unmarshal p.public_key)

  -- Info.ToProto
  unfoldable pub info_to_proto : ChainInfo → ChainInfoPacket
  unfolding info_hash whole_seconds
  info_to_proto c = record {
    public_key = K.marshal c.public_key;
    genesis_time = c.genesis_time;
    period = whole_seconds c.period % 2 ^ 32;
    hash = info_hash c;
    group_hash = c.group_hash;
  }

  -- What arrives of the information is the information, for periods of whole seconds that a uint32 holds.
  pub info_from_proto-info_to_proto :
      (c : ChainInfo) → IsSeconds c.period → info_from_proto (info_to_proto c) ≡ ok c
  unfolding info_from_proto info_to_proto info_with_key
  info_from_proto-info_to_proto c whole =
      rw (K.unmarshal-marshal c.public_key) (rw (seconds_back c.period whole) refl)

  -- chainInfoFromPeers of core/drand_control.go, for what each peer answers: an invalid answer takes the
  -- place of the one before it, a good answer too.
  unfoldable pub last_info : Option ChainInfo → List (Option ChainInfoPacket) → Option ChainInfo
  unfolding info_from_proto
  last_info info [] = info
  last_info info (none ∷ answers) = last_info info answers
  last_info info (some packet ∷ answers) =
      last_info (elim (info_from_proto packet) [ ok i ↦ some i | err e ↦ none ]) answers

  unfoldable pub chain_info_from_peers : List (Option ChainInfoPacket) → Option ChainInfo
  unfolding last_info
  chain_info_from_peers answers = last_info none answers
