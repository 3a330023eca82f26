-- ===== src/Chain/Block.antt =====
-- chain/beacon.go and GenesisBeacon of chain/store.go: one block of the randomness chain.
use drand.Prelude.{ℕ, Bool, ◌&&◌, ◌++◌, [], Bytes, bytes_equal, ◌==◌}
use drand.Chain.Encoding.{round_to_bytes}
use drand.Chain.Crypto.{Crypto}

pub record Beacon : Type 0 where
  pub previous_sig : Bytes
  pub round : ℕ
  pub signature : Bytes

-- Equal
unfoldable pub equal : Beacon → Beacon → Bool
equal b b2 =
    bytes_equal b.previous_sig b2.previous_sig
    && (b.round == b2.round)
    && bytes_equal b.signature b2.signature

-- GenesisBeacon, of the group hash in the chain's information
unfoldable pub genesis_beacon : Bytes → Beacon
genesis_beacon group_hash = record { previous_sig = []; round = 0; signature = group_hash }

module _ (c : Crypto) where
  -- Message: the hash of the previous signature and the round.
  unfoldable pub message : ℕ → Bytes → Bytes
  message curr_round prev_sig = c.sha256 (prev_sig ++ round_to_bytes curr_round)

  -- RandomnessFromSignature
  unfoldable pub randomness_from_signature : Bytes → Bytes
  randomness_from_signature sig = c.sha256 sig

  unfoldable pub randomness : Beacon → Bytes
  unfolding randomness_from_signature
  randomness b = randomness_from_signature b.signature

  -- VerifyBeacon; true for a nil error
  unfoldable pub verify_beacon : c.Point → Beacon → Bool
  verify_beacon pubkey b = c.verify_recovered pubkey (message b.round b.previous_sig) b.signature

  -- Verify
  unfoldable pub verify : c.Point → Bytes → Bytes → ℕ → Bool
  verify pubkey prev_sig signature round =
      verify_beacon pubkey
        (record { previous_sig = prev_sig; round = round; signature = signature })
