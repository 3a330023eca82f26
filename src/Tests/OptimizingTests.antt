-- ===== src/Tests/OptimizingTests.antt =====
-- The theorems on the optimizing client at concrete inputs: three clients, the third of them passive.
use drand.Prelude.{map, ℕ, ◌+◌, ◌≡◌, ◌≤◌, refl, none, List, [], ◌∷◌, arith, All}
use drand.Prelude.Int.{pos}
use drand.Client.Optimizing.{
  RequestStat, OptimizingClient, fresh_stat, max_rtt, max_start, WatchResult, track, update_stats,
  sample, samples, fastest_clients,
}
use drand.Client.Watching.{
  new_watch_state, try_repopulate, repopulate, clean, next_unwatched, first_such,
}
use drand.Client.Optimizing.Results.{IsAscendingAbove, latest_of, track-IsAscendingAbove}
use drand.Client.Optimizing.Ranking.{IsRanked, IsNewest, all_seen, update_stats-IsRanked}
use drand.Client.Watching.Slots.{IsWatching, IsPopulated, try_repopulate-IsWatching}
use drand.Prelude.Sorting.{sort_by, insert_by}
use mathlib.Core.List.{Perm}

abbrev three_clients : OptimizingClient
three_clients = record {
  clients = 1 ∷ 2 ∷ 3 ∷ [];
  passive_clients = 3 ∷ [];
  stats =
      fresh_stat (pos 100) 1
      ∷ fresh_stat (pos 100) 2
      ∷ record { client = 3; rtt = max_rtt; start_time = max_start }
      ∷ [];
  request_timeout = pos 5;
  request_concurrency = 1;
  speed_test_interval = pos 300;
  watch_retry_interval = pos 30;
}

-- The first client answered slowly, the second quickly.
abbrev two_samples : List RequestStat
two_samples =
    record { client = 1; rtt = pos 80; start_time = pos 200 }
    ∷ record { client = 2; rtt = pos 40; start_time = pos 300 }
    ∷ []

update_stats-IsRanked_example :
    IsRanked (update_stats three_clients two_samples).stats
    × Perm
        (update_stats three_clients two_samples).stats
        (map (all_seen two_samples) three_clients.stats)
    × ((s : RequestStat) → IsNewest two_samples s (all_seen two_samples s))
    × Perm
        (fastest_clients (update_stats three_clients two_samples))
        (fastest_clients three_clients)
update_stats-IsRanked_example =
    update_stats-IsRanked three_clients two_samples ((refl, (refl, tt)), ((refl, tt), (tt, tt)))

ranked_clients : fastest_clients (update_stats three_clients two_samples) ≡ 2 ∷ 1 ∷ 3 ∷ []
unfolding update_stats samples sample fastest_clients sort_by insert_by
ranked_clients = refl

abbrev result_of : ℕ → WatchResult
result_of r = record {
  result = record { rnd = r; random = []; sig = []; previous_signature = none };
  client = 1;
  now = pos (1000000000000 + r);
}

abbrev received : List WatchResult
received = result_of 3 ∷ result_of 2 ∷ result_of 3 ∷ result_of 5 ∷ []

track-IsAscendingAbove_example :
    let out = (track (pos 30000000000) (pos 1000) three_clients 0 received).1 in
    IsAscendingAbove 0 out × All (λ (r : WatchResult). r.result.rnd ≤ latest_of 0 out) received
track-IsAscendingAbove_example =
    track-IsAscendingAbove (pos 30000000000) (pos 1000) three_clients 0 received

fresh-IsWatching : IsWatching (new_watch_state three_clients)
unfolding new_watch_state
fresh-IsWatching = record {
  once = λ d. omega arith;
  bounded = omega arith;
  apart = λ d h. ground arith;
}

try_repopulate-IsWatching_example :
    IsWatching (try_repopulate (new_watch_state three_clients) (pos 7))
    × IsPopulated (try_repopulate (new_watch_state three_clients) (pos 7))
try_repopulate-IsWatching_example =
    try_repopulate-IsWatching (new_watch_state three_clients) (pos 7) fresh-IsWatching

fresh_watches : (try_repopulate (new_watch_state three_clients) (pos 7)).active ≡ 1 ∷ []
unfolding try_repopulate repopulate clean next_unwatched first_such new_watch_state fastest_clients
fresh_watches = refl
