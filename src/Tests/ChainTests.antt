-- ===== src/Tests/ChainTests.antt =====
-- The theorems on chain and chain/boltdb at concrete inputs, and runs of their functions.
use drand.Prelude.{max, ℕ, ◌+◌, ◌-◌, ◌*◌, ◌^◌, ◌≡◌, ◌≤◌, refl, [], ◌∷◌, arith, ltb, ok}
use drand.Prelude.Int.{pos, negsuc, ◌≤ℤ◌, ◌+ℤ◌}
use drand.Prelude.Words.{add_int64, sub_int64, log2}
use drand.Chain.Time.{
  time_of_round, next_round, current_round, whole_seconds, period_bits, round_limit, periods_in,
}
use drand.Chain.Time.Rounds.{
  seconds, next_round_follows, current_round-time_of_round, time_of_round_overflows,
}
use drand.Chain.Encoding.{round_to_bytes, lt_bytes, lt_bytes-round_to_bytes}
use drand.Chain.Block.{Beacon, genesis_beacon}
use drand.Boltdb.{put, last}
use drand.Boltdb.Laws.{IsValid, put-IsValid, last-put}
use drand.Prelude.Assoc.{bytes_eq, lookup}
use drand.Beacon.Sync.Server.{serve_chain}
use drand.Beacon.Sync.Server.Sent.{serve_chain-from}
use drand.Prelude.{All}
use drand.Tests.Bucket.{SortedDb, shelf_bucket, framed, place, place-IsAscending, encode}

-- The League of Entropy's chain: a period of 30 seconds, genesis at 1595431050.
abbrev genesis_time : ℕ
genesis_time = 1595431050

next_round_runs :
    next_round (pos (genesis_time + 95)) (seconds 30) (pos genesis_time)
    ≡ (5, pos (genesis_time + 120))
unfolding next_round add_int64 sub_int64 periods_in whole_seconds
next_round_runs = refl

time_of_round_runs : time_of_round (seconds 30) (pos genesis_time) 5 ≡ pos (genesis_time + 120)
unfolding time_of_round add_int64 whole_seconds round_limit period_bits log2
time_of_round_runs = refl

next_round_follows_example :
    let (r, t) = next_round (pos (genesis_time + 95)) (seconds 30) (pos genesis_time) in
    (t ≡ time_of_round (seconds 30) (pos genesis_time) r)
    × (pos (genesis_time + 95 + 1) ≤ℤ t)
    × (t ≤ℤ pos (max (genesis_time + 95) genesis_time + 30))
next_round_follows_example =
    next_round_follows 30 genesis_time (omega arith) (omega arith) (genesis_time + 95) (omega arith)
      (omega arith)

current_round-time_of_round_example :
    current_round
      (time_of_round (seconds 30) (pos genesis_time) 4 +ℤ pos 5)
      (seconds 30)
      (pos genesis_time)
    ≡ 4
current_round-time_of_round_example =
    current_round-time_of_round 30 genesis_time (omega arith) (omega arith) 4 5 (omega arith)
      (omega arith) (omega arith)

time_of_round_overflows_example :
    time_of_round (seconds 30) (pos (2 ^ 63 - 1)) 2
    ≡ negsuc (2 ^ 64 - (2 ^ 63 - 1 + (2 - 1) * 30) - 1)
unfolding round_limit period_bits whole_seconds log2
time_of_round_overflows_example =
    time_of_round_overflows 30 (2 ^ 63 - 1) 2 (omega arith) (omega arith) (omega arith)
      (omega arith) (omega arith)

round_to_bytes_runs : round_to_bytes 258 ≡ 0 ∷ 0 ∷ 0 ∷ 0 ∷ 0 ∷ 0 ∷ 1 ∷ 2 ∷ []
unfolding round_to_bytes
round_to_bytes_runs = refl

lt_bytes-round_to_bytes_example : lt_bytes (round_to_bytes 255) (round_to_bytes 256) ≡ ltb 255 256
lt_bytes-round_to_bytes_example = lt_bytes-round_to_bytes 255 256 (omega arith) (omega arith)

abbrev genesis : Beacon
genesis = record { previous_sig = []; round = 0; signature = 7 ∷ [] }

genesis_runs : genesis_beacon (7 ∷ []) ≡ genesis
unfolding genesis_beacon
genesis_runs = refl

abbrev first_beacon : Beacon
first_beacon = record { previous_sig = 7 ∷ []; round = 1; signature = 8 ∷ [] }

abbrev pub nothing_stored : SortedDb
nothing_stored = ([], tt)

abbrev pub stored_in : SortedDb → Beacon → SortedDb
stored_in d b = (
  place (round_to_bytes b.round) (encode b) d.0,
  place-IsAscending (round_to_bytes b.round) (encode b) d.0 d.1,
)

abbrev genesis_stored : SortedDb
genesis_stored = stored_in nothing_stored genesis

pub nothing_stored-IsValid : IsValid shelf_bucket framed nothing_stored
unfolding lookup
nothing_stored-IsValid k v found = cc

-- The entries of a database that holds the genesis beacon.
genesis_stored-IsValid : IsValid shelf_bucket framed genesis_stored
genesis_stored-IsValid =
    put-IsValid shelf_bucket framed nothing_stored genesis_stored genesis nothing_stored-IsValid
      (omega arith) (unfold put in refl)

bolt-last-put_example :
    last shelf_bucket framed (stored_in genesis_stored first_beacon) ≡ ok first_beacon
bolt-last-put_example =
    last-put shelf_bucket framed genesis_stored (stored_in genesis_stored first_beacon) first_beacon
      genesis genesis_stored-IsValid (omega arith) (unfold put in refl)
      (unfold last genesis_beacon in refl) (omega arith)

serve_chain-from_example :
    All (λ (b : Beacon). 0 ≤ b.round) (serve_chain shelf_bucket framed genesis_stored 5 0).0
unfolding genesis_beacon
serve_chain-from_example =
    serve_chain-from shelf_bucket framed genesis_stored 5 0 (omega arith)
      ((genesis, refl, refl, omega arith), tt)
