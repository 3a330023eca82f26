-- ===== src/Tests/FollowTests.antt =====
-- A daemon that follows a chain of other nodes.
use drand.Prelude.{
  ℕ, ◌≡◌, refl, subst, false, true, some, Option, List, [], ◌∷◌, arith, ok, err, All, Bytes,
  bytes_equal,
}
use drand.Prelude.Int.{pos}
use drand.Chain.Block.{Beacon, verify_beacon, message, genesis_beacon}
use drand.Chain.Encoding.{round_to_bytes}
use drand.Chain.Info.{ChainInfoPacket, info_hash}
use drand.Store.{IsRound, no_beacon_saved}
use drand.Core.Commands.{new_drand}
use drand.Core.FollowChain.{followed_put, start_follow_chain}
use drand.Core.FollowChain.Asked.{IsOutcome, start_follow_chain-IsOutcome}
use drand.Beacon.Sync.{follow, try_node, receive}
use drand.Tests.Data.{toy, shelf}
use drand.Tests.BeaconTests.{first_beacon}
use drand.Tests.SetupTests.{leader_pair, numbers}

abbrev packet : ChainInfoPacket
packet = record {
  public_key = 11 ∷ [];
  genesis_time = pos 1000;
  period = 30;
  hash = [];
  group_hash = 7 ∷ [];
}

abbrev own_hash : Bytes → Bytes
own_hash b = b

abbrev wanted : Bytes
wanted = info_hash numbers own_hash (record {
  public_key = 11;
  period = pos 30000000000;
  genesis_time = pos 1000;
  group_hash = 7 ∷ [];
})

-- Every peer sends the first beacon.
abbrev first_only : ℕ → ℕ → Option (List Beacon)
first_only n r = some (first_beacon ∷ [])

first_only_wire :
    (n r : ℕ) (bs : List Beacon)
    → first_only n r ≡ some bs
    → All (λ (b : Beacon). IsRound b.round) bs
first_only_wire n r bs e =
    let same : first_beacon ∷ [] ≡ bs = cc in
    subst (All (λ (b : Beacon). IsRound b.round)) same (omega arith, tt)

start_follow_chain-IsOutcome_example :
    let t =
      start_follow_chain numbers own_hash shelf toy
        (λ p. tt)
        first_only
        (new_drand numbers leader_pair)
        (some packet ∷ [])
        (some wanted)
        true
        1
        (0 ∷ [])
        [] in
    (t.0.syncing ≡ false)
    × IsOutcome numbers own_hash shelf toy
        (λ p. tt)
        first_only
        first_only_wire
        wanted
        []
        1
        (t.1, t.2)
start_follow_chain-IsOutcome_example =
    start_follow_chain-IsOutcome numbers own_hash shelf toy (λ p. tt) first_only first_only_wire
      (new_drand numbers leader_pair) (some packet ∷ []) wanted true 1 (0 ∷ []) [] refl tt

-- A peer that leaves out rounds 1 to 4 is followed to round 5 all the same.
abbrev fifth_beacon : Beacon
fifth_beacon = record {
  previous_sig = 9 ∷ [];
  round = 5;
  signature = 9 ∷ 0 ∷ 0 ∷ 0 ∷ 0 ∷ 0 ∷ 0 ∷ 0 ∷ 5 ∷ [];
}

rounds_left_out :
    let t =
      start_follow_chain numbers own_hash shelf toy
        (λ p. tt)
        (λ (n : ℕ) (r : ℕ). some (fifth_beacon ∷ []))
        (new_drand numbers leader_pair)
        (some packet ∷ [])
        (some wanted)
        true
        5
        (0 ∷ [])
        [] in
    (t.2 ≡ ok tt)
    × (shelf.get t.1.store 5 ≡ ok fifth_beacon)
    × (shelf.get t.1.store 1 ≡ err no_beacon_saved)
unfolding start_follow_chain follow receive followed_put genesis_beacon bytes_equal info_hash
    try_node verify_beacon message round_to_bytes
rounds_left_out = (refl, refl, refl)
