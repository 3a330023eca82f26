-- ===== src/Gossip.antt =====
-- lp2p/client/validator.go, lp2p/client/client.go, lp2p/relaynode.go: results over a gossip network. The
-- encoding of a result by protobuf is a parameter, none for bytes that do not decode; so are the chain's
-- times and the cache's answer.
pub mod Accepted
use drand.Prelude.{
  ℕ, Bool, true, false, not, ◌&&◌, Option, none, some, List, [], ◌∷◌, ◌++◌, map, filter, length,
  ltb, leb, ◌==◌, if◌then◌else◌, Bytes,
}
use drand.Prelude.Int.{ℤ, pos, ltb_ℤ, ◌*ℤ◌}
use drand.Chain.Block.{Beacon, equal, verify_beacon}
use drand.Chain.Crypto.{Crypto}
use drand.Chain.Time.{time_of_round}
use drand.Client.Verify.{RandomData}

-- pubsub.ValidationResult
pub data Validation : Type 0 where
  accept reject ignore : Validation

-- Optional bytes as Go reads them: nil is empty.
abbrev pub bytes_of : Option Bytes → Bytes
bytes_of none = []
bytes_of (some b) = b

abbrev pub beacon_in : RandomData → Beacon
beacon_in r = record {
  previous_sig = bytes_of r.previous_signature;
  round = r.rnd;
  signature = r.sig;
}

module _ (k : Crypto) where
  pub record GossipInfo : Type 0 where
    pub public_key : k.Point
    pub period : ℤ
    pub genesis_time : ℤ

  -- randomnessValidator, where the cache has an entry of the round; its entries are RandomData.
  unfoldable pub against_cache : GossipInfo → Beacon → Option RandomData → Validation
  unfolding equal verify_beacon
  against_cache info b (some current) = if equal b (beacon_in current) then ignore else reject
  against_cache info b none = if verify_beacon k info.public_key b then accept else reject

  unfoldable pub validate_result :
      Option GossipInfo → ℤ → (ℕ → Option RandomData) → RandomData → Validation
  unfolding against_cache time_of_round
  validate_result none now try_get r = accept
  validate_result (some info) now try_get r =
      if ltb_ℤ now (time_of_round info.period info.genesis_time r.rnd *ℤ pos 1000000000)
      then reject
      else against_cache info (beacon_in r) (try_get r.rnd)

  -- randomnessValidator at the time `now` in nanoseconds
  unfoldable pub randomness_validator :
      (Bytes → Option RandomData)
      → Option GossipInfo
      → ℤ
      → (ℕ → Option RandomData)
      → Bytes
      → Validation
  unfolding validate_result
  randomness_validator decode info now try_get message = elim (decode message) [
    | none ↦ reject
    | some r ↦ validate_result info now try_get r
  ]

-- A subscription: a channel of the places it has left, and what was sent to it
pub record Subscription : Type 0 where
  pub id : ℕ
  pub places : ℕ
  pub received : List RandomData

-- Client: the subscriptions, the last round sent on, and whether it is closed
pub record GossipClient : Type 0 where
  pub subs : List Subscription
  pub latest : ℕ

-- case ch <- rand, or default: the channel is full
unfoldable pub notify_sub : RandomData → Subscription → Subscription
notify_sub r s =
    if ltb (length s.received) s.places then record s { received = s.received ++ r ∷ [] } else s

-- The turn of the loop of NewWithPubsub for a message
unfoldable pub on_message : GossipClient → Option RandomData → GossipClient
unfolding notify_sub
on_message c none = c
on_message c (some r) =
    if leb r.rnd c.latest then c else record c { latest = r.rnd; subs = map (notify_sub r) c.subs }

-- Sub, and the function that it returns
unfoldable pub sub : GossipClient → ℕ → ℕ → GossipClient
sub c id places = record c {
  subs = c.subs ++ record { id = id; places = places; received = [] } ∷ [];
}

unfoldable pub unsub : GossipClient → ℕ → GossipClient
unsub c id = record c { subs = filter (λ (s : Subscription). not (s.id == id)) c.subs }

-- The relay's background: the results of the watch that are published, of those that encode
unfoldable pub published : (RandomData → Option Bytes) → List RandomData → List Bytes
published encode [] = []
published encode (r ∷ rs) =
    let rest = published encode rs in elim (encode r) [ none ↦ rest | some b ↦ b ∷ rest ]
