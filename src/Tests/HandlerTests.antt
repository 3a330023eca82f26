-- ===== src/Tests/HandlerTests.antt =====
-- The theorems on the handler and the ticker of chain/beacon at concrete inputs.
use drand.Prelude.{
  ◌&&◌, not, ◌≡◌, ◌≤◌, ◌<◌, ◌↔◌, refl, false, some, List, [], ◌∷◌, All, any, leb, if◌then◌else◌,
}
use drand.Prelude.Int.{pos, eq_ℤ}
use drand.Chain.Block.{Beacon, message}
use drand.Chain.Time.{next_round}
use drand.Chain.Time.Rounds.{seconds}
use drand.Beacon.Aggregator.{set_info}
use drand.Beacon.Ticker.{RoundInfo, new_ticker}
use drand.Beacon.Ticker.Delivery.{Event, IsTimely, happen_all, happen_all-new_ticker}
use drand.Beacon.Handler.{
  invalid_future_round, invalid_partial, Handler, NewGroup, new_valid_partial,
  process_partial_beacon, tick,
}
use drand.Beacon.Handler.Steps.{here, then_step, receives, ticks, IsGuarded}
use drand.Beacon.Handler.Partials.{Reach-IsGuarded, process_partial_beacon_cases}
use drand.Beacon.Handler.Rounds.{on_transitions, on_transitions-crypto}
use drand.Tests.Data.{toy, shelf}
use drand.Tests.BeaconTests.{waiting, first_partial, first_beacon, genesis}

-- A node of a group of two, with a period of ten seconds and genesis at 1000; it moves to a group of
-- three from round 2 on.
abbrev next_group : NewGroup shelf toy
next_group = record {
  poly = tt;
  threshold = 2;
  addresses = (65 ∷ []) ∷ (66 ∷ []) ∷ (67 ∷ []) ∷ [];
  share = 4;
  share_index = pos 1;
  transition_time = pos 1020;
}

abbrev node : Handler shelf toy
node = record {
  period = seconds 10;
  genesis_time = pos 1000;
  transition_time = pos 1020;
  addr = 65 ∷ [];
  index = pos 9;
  nodes = (65 ∷ []) ∷ (66 ∷ []) ∷ [];
  chain = waiting;
  new_partials = [];
  current = record { round = 0; time = pos 0 };
  sent = [];
  sleeping = [];
  runs = [];
  run_syncs = [];
  transition = some (1, next_group);
  stopped = false;
  fatal = false;
}

abbrev second : RoundInfo
second = record { round = 2; time = pos 1010 }

abbrev received : Handler shelf toy
received = (process_partial_beacon shelf toy node (pos 1003) (66 ∷ []) first_partial).0

Reach-IsGuarded_example : IsGuarded shelf toy waiting.crypto (tick shelf toy received second)
Reach-IsGuarded_example =
    Reach-IsGuarded shelf toy waiting.crypto node (tick shelf toy received second)
      (λ msg sig signed. refl) (record { keys = refl; queued = tt; others = tt })
      (then_step (then_step here (receives (pos 1003) (66 ∷ []) first_partial)) (ticks second))

process_partial_beacon_cases_example :
    let next = (next_round (pos 1003) node.period node.genesis_time).0 in
    let good =
      toy.verify_partial node.chain.crypto.poly
        (message toy first_partial.round first_partial.previous_sig)
        first_partial.partial_sig in
    let (h', answer) = process_partial_beacon shelf toy node (pos 1003) (66 ∷ []) first_partial in
    ((answer ≡ some invalid_future_round) ↔ (next < first_partial.round))
    × ((answer ≡ some invalid_partial) ↔ ((first_partial.round ≤ next) × (good ≡ false)))
    × (h' ≡ (
        if leb first_partial.round next
          && good
          && not (eq_ℤ (toy.index_of first_partial.partial_sig) node.index)
        then new_valid_partial shelf toy node (66 ∷ []) first_partial
        else node))
process_partial_beacon_cases_example =
    process_partial_beacon_cases shelf toy node (pos 1003) (66 ∷ []) first_partial

on_transitions-crypto_example :
    (on_transitions shelf toy (genesis ∷ first_beacon ∷ []) node).chain.crypto ≡ (
      if any (λ (b : Beacon). leb 1 b.round) (genesis ∷ first_beacon ∷ [])
      then set_info toy node.chain.crypto tt 2 3 4
      else node.chain.crypto)
on_transitions-crypto_example =
    on_transitions-crypto shelf toy (genesis ∷ first_beacon ∷ []) node 1 next_group refl

abbrev events : List Event
events =
    Event.opens (pos 1010)
    ∷ Event.opens (pos 0)
    ∷ Event.ticks (pos 1000)
    ∷ Event.takes 1
    ∷ Event.ticks (pos 1010)
    ∷ []

happen_all-new_ticker_example :
    All
      (IsTimely (seconds 10) (pos 1000))
      (happen_all events (new_ticker (seconds 10) (pos 1000))).channels
happen_all-new_ticker_example = happen_all-new_ticker (seconds 10) (pos 1000) events
