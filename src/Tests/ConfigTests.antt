-- ===== src/Tests/ConfigTests.antt =====
-- The clients of options and the polling of rounds at concrete inputs.
use drand.Prelude.{
  ◌+◌, ◌==◌, if◌then◌else◌, ◌≡◌, refl, false, arith, none, some, List, [], ◌∷◌, map, ok, err, Bytes,
  bytes_equal,
}
use drand.Prelude.Int.{pos, pos_part}
use drand.Chain.Time.{next_round, current_round}
use drand.Chain.Time.Rounds.{seconds}
use drand.Client.Config.{
  Layer, aggregating, caching, optimizing, verifying, ClientConfig, ClientOption,
  non_matching_group, from, with_chain_hash, with_chain_info, new_client, default_config,
  apply_options, make_client, for_urls,
}
use drand.Client.Config.Trust.{IsConsistent, HasRoot, new_client-HasRoot}
use drand.Client.Sources.{polling_watcher}
use drand.Client.Sources.Polling.{tick_times, rounds_from, polling_watcher_follows}

-- Information that is its own hash
abbrev own_hash : Bytes → Bytes
own_hash b = b

abbrev options : List (ClientOption Bytes own_hash)
options = from (1 ∷ 2 ∷ []) ∷ with_chain_hash (7 ∷ []) ∷ with_chain_info (7 ∷ []) ∷ []

abbrev configured : ClientConfig Bytes own_hash
configured = record (default_config Bytes own_hash) {
  clients = 1 ∷ 2 ∷ [];
  chain_hash = some (7 ∷ []);
  chain_info = some (7 ∷ []);
}

abbrev layers : List Layer
layers =
    aggregating false false (pos 0) ∷ caching 32 ∷ optimizing 2 false ∷ verifying none false ∷ []

new_client-made : new_client Bytes own_hash options ≡ ok layers
unfolding new_client bytes_equal
new_client-made = refl

new_client-HasRoot_example :
    (cfg : ClientConfig Bytes own_hash) × (apply_options Bytes own_hash
        (default_config Bytes own_hash)
        options
      ≡ ok cfg)
    × (make_client Bytes own_hash cfg ≡ ok layers)
    × IsConsistent Bytes own_hash cfg
    × HasRoot Bytes own_hash cfg
new_client-HasRoot_example = new_client-HasRoot Bytes own_hash options layers new_client-made

-- Information on another chain is refused.
new_client-refused :
    new_client Bytes own_hash (with_chain_hash (7 ∷ []) ∷ with_chain_info (8 ∷ []) ∷ [])
    ≡ err non_matching_group
unfolding new_client bytes_equal
new_client-refused = refl

-- The servers before the first that answers come last.
servers_in_order :
    for_urls (λ u. if u == 3 then some u else none) none [] (1 ∷ 2 ∷ 3 ∷ 4 ∷ [])
    ≡ 3 ∷ 4 ∷ 1 ∷ 2 ∷ []
unfolding for_urls
servers_in_order = refl

polling_watcher_follows_example :
    let t = pos_part (next_round (pos 1000) (seconds 30) (pos 100)).1 in
    polling_watcher
      (λ t. current_round t (seconds 30) (pos 100))
      (λ t r. some r)
      (pos 1000)
      (tick_times (t + 2) 30 3)
    ≡ map (λ r. r) (rounds_from (current_round (pos 1000) (seconds 30) (pos 100)) 4)
polling_watcher_follows_example =
    polling_watcher_follows 30 100 (omega arith) (omega arith) (λ r. r) 1000 2 3 (omega arith)
      (omega arith) (omega arith)
