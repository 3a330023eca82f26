-- ===== src/Gossip/Accepted.antt =====
-- lp2p/client: what the gossip client lets through.
use drand.Prelude.{
  ℕ, ◌≡◌, refl, sym, ◌∙◌, true, false, Option, none, some, Bytes, arith, Bool-cases, inl, inr,
}
use drand.Prelude.Int.{ℤ, pos, ltb_ℤ, ◌*ℤ◌}
use drand.Chain.Block.{Beacon, equal, verify_beacon}
use drand.Chain.Crypto.{Crypto}
use drand.Chain.Time.{time_of_round}
use drand.Client.Verify.{RandomData}
use drand.Gossip.{accept, GossipInfo, beacon_in, against_cache, validate_result}

module _ (k : Crypto) where
  accepted-uncached :
      (info : GossipInfo k) (b : Beacon) (o : Option RandomData)
      → against_cache k info b o ≡ accept
      → (o ≡ none) × (verify_beacon k info.public_key b ≡ true)
  unfolding against_cache
  accepted-uncached info b none h = elim (Bool-cases (verify_beacon k info.public_key b)) [
    | inl valid ↦ (refl, valid)
    | inr invalid ↦ absurd (ground arith)
  ]
  accepted-uncached info b (some current) h = elim (Bool-cases (equal b (beacon_in current))) [
    | inl same ↦ absurd (ground arith)
    | inr other ↦ absurd (ground arith)
  ]

  -- With a chain to trust in, a result that is accepted verifies, its round is not in the future, and
  -- none of its round is cached.
  pub validate_result-accept :
      (info : GossipInfo k) (now : ℤ) (try_get : ℕ → Option RandomData) (r : RandomData)
      → validate_result k (some info) now try_get r ≡ accept
      → (ltb_ℤ now (time_of_round info.period info.genesis_time r.rnd *ℤ pos 1000000000) ≡ false)
        × (try_get r.rnd ≡ none)
        × (verify_beacon k info.public_key (beacon_in r) ≡ true)
  unfolding validate_result
  validate_result-accept info now try_get r h =
      elim (Bool-cases
        (ltb_ℤ now (time_of_round info.period info.genesis_time r.rnd *ℤ pos 1000000000))) [
          | inl future ↦ absurd (ground arith)
          | inr present ↦
              let step : validate_result k (some info) now try_get r
                  ≡ against_cache k info (beacon_in r) (try_get r.rnd) =
                rw (present, validate_result) refl in
              let (uncached, valid) =
                accepted-uncached info (beacon_in r) (try_get r.rnd) (sym step ∙ h) in
              (present, uncached, valid)
        ]

  -- The randomness in a result plays no part in whether it is accepted.
  pub validate_result-random :
      (info : Option (GossipInfo k)) (now : ℤ) (try_get : ℕ → Option RandomData) (r : RandomData)
      (random : Bytes)
      → validate_result k info now try_get (record r { random = random })
        ≡ validate_result k info now try_get r
  unfolding validate_result
  validate_result-random none now try_get r random = refl
  validate_result-random (some info) now try_get r random = refl
