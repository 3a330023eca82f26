-- ===== src/Tests/BeaconTests.antt =====
-- The theorems on chain/beacon at concrete inputs, and runs of its functions.
use drand.Prelude.{
  ◌⊎◌, ℕ, zero, suc, ◌+◌, ◌%◌, ◌^◌, ◌≡◌, ◌≤◌, ◌<◌, ◌⊎◌, refl, true, false, Option, some, none, List,
  [], ◌∷◌, ◌++◌, arith, Bytes, bytes_equal, Result, ok, length,
}
use drand.Prelude.Int.{pos}
use drand.Prelude.Assoc.{bytes_eq, int_eq, lookup, insert}
use drand.Chain.Block.{Beacon, verify_beacon, message}
use drand.Chain.Encoding.{round_to_bytes}
use drand.Store.{StoreError}
use drand.Beacon.Cache.{
  PartialBeaconPacket, RoundCache, PartialCache, append, get_round_cache, rcvd_of, round_id,
  new_partial_cache, get_cache, make_room, open_cache, append_to, append_sig, count_partial,
  new_round_cache, msg,
}
use drand.Beacon.Cache.Validity.{Op, run_ops, IsValidRound, get_round_cache-run_ops}
use drand.Beacon.Cache.Eviction.{append_at_limit, append_blocked}
use drand.Beacon.Append.{AppendStore, CallbackStore, put, callback_put, notify}
use drand.Beacon.Append.Linked.{IsCurrent, IsLinked, offer, offer-IsLinked}
use drand.Beacon.Append.Verified.{IsSound}
use drand.Beacon.Aggregator.{
  ChainStore, new_partial, with_round_cache, with_signature, after_append, try_append,
}
use drand.Beacon.Aggregator.Soundness.{Aggregated, new_partial_cases, new_partial-IsSound}
use drand.Beacon.Sync.{
  chain_sync_store, Syncer, already_following, follow, try_nodes, try_node, call_node, receive,
}
use drand.Beacon.Sync.Follow.{Followed, follow-IsSound}
use drand.Tests.Data.{toy, shelf}

abbrev pub genesis : Beacon
genesis = record { previous_sig = []; round = 0; signature = 7 ∷ [] }

abbrev pub next_sig : Bytes
next_sig = 7 ∷ 0 ∷ 0 ∷ 0 ∷ 0 ∷ 0 ∷ 0 ∷ 0 ∷ 1 ∷ []

abbrev pub first_beacon : Beacon
first_beacon = record { previous_sig = 7 ∷ []; round = 1; signature = next_sig }

abbrev pub fresh : AppendStore shelf
fresh = record { store = genesis ∷ []; last = some genesis }

abbrev advanced : AppendStore shelf
advanced = record { store = first_beacon ∷ genesis ∷ []; last = some first_beacon }

fresh-IsCurrent : IsCurrent shelf fresh genesis
fresh-IsCurrent = record { valid = (omega arith, tt); cached = refl; stored = refl }

fresh-IsLinked : IsLinked shelf fresh.store 0
fresh-IsLinked r h = absurd (omega arith)

offer-IsLinked_example :
    (l' : Beacon) × IsCurrent shelf (offer shelf (genesis ∷ first_beacon ∷ []) fresh) l'
    × IsLinked shelf (offer shelf (genesis ∷ first_beacon ∷ []) fresh).store l'.round
    × (0 ≤ l'.round)
offer-IsLinked_example =
    offer-IsLinked shelf (genesis ∷ first_beacon ∷ []) fresh genesis fresh-IsCurrent fresh-IsLinked
      (omega arith)

abbrev pub watched : CallbackStore shelf
watched = record { inner = fresh; callbacks = (1 ∷ [], tt) ∷ (2 ∷ [], tt) ∷ []; new_job = [] }

watched-IsSound : IsSound shelf toy tt watched genesis
watched-IsSound = record {
  current = fresh-IsCurrent;
  linked = fresh-IsLinked;
  verified = λ r b above small found. absurd (only_genesis r b above found);
}
  where
    only_genesis :
        (r : ℕ) (b : Beacon)
        → 0 < r
        → ◌≡◌ {A = Result StoreError Beacon} (shelf.get fresh.store r) (ok b)
        → ⊥
    only_genesis r b above found = ground arith

-- A node of a group of one, threshold one, that has the genesis beacon.
abbrev pub waiting : ChainStore shelf toy
waiting = record {
  crypto = record { share = 3; poly = tt; threshold = 1; size = 1; public_key = tt };
  last_beacon = genesis;
  cache = record { rounds = []; rcvd = [] };
  store = watched;
  catchup_beacons = none;
  follows = [];
}

abbrev pub first_partial : PartialBeaconPacket
first_partial = record { round = 1; previous_sig = 7 ∷ []; partial_sig = 3 ∷ next_sig }

new_partial_runs : (new_partial shelf toy waiting first_partial).last_beacon ≡ first_beacon
unfolding new_partial with_round_cache with_signature after_append try_append callback_put put
    notify append get_cache make_room open_cache append_to append_sig count_partial get_round_cache
    round_id lookup insert rcvd_of new_round_cache msg message round_to_bytes bytes_equal
new_partial_runs = refl

new_partial_cases_example :
    let c' = new_partial shelf toy waiting first_partial in
    (c'.store ≡ waiting.store)
    ⊎ ((r : RoundCache) × (sig : Bytes) × (0 < 1)
        × (1 ≤ (0 + 4) % 2 ^ 64)
        × (get_round_cache (append toy waiting.cache first_partial) 1 (7 ∷ []) ≡ some r)
        × Aggregated shelf toy waiting c' r sig)
new_partial_cases_example = new_partial_cases shelf toy waiting first_partial

new_partial-IsSound_example :
    (l' : Beacon) × IsSound shelf toy tt (new_partial shelf toy waiting first_partial).store l'
    × (0 ≤ l'.round)
    × (l'.round ≤ 0 + 1)
new_partial-IsSound_example =
    new_partial-IsSound shelf toy waiting first_partial genesis watched-IsSound (omega arith)

abbrev catching_up : Syncer (chain_sync_store shelf) toy
catching_up = record { store = watched; public_key = tt; following = false }

-- Every peer delivers the first beacon.
abbrev deliver : ℕ → ℕ → Option (List Beacon)
deliver n r = some (first_beacon ∷ [])

deliver_short : (n r : ℕ) (bs : List Beacon) → deliver n r ≡ some bs → length bs ≤ 1
deliver_short n r bs e = ground arith

follow_runs : (follow (chain_sync_store shelf) toy deliver catching_up 1 (0 ∷ [])).1 ≡ none
unfolding follow try_nodes try_node call_node receive verify_beacon message round_to_bytes
    bytes_equal callback_put put notify
follow_runs = refl

follow-IsSound_example :
    let t = follow (chain_sync_store shelf) toy deliver catching_up 1 (0 ∷ []) in
    ((catching_up.following ≡ true) × (t ≡ (catching_up, some already_following)))
    ⊎ ((catching_up.following ≡ false)
        × (t.0.following ≡ false)
        × Followed shelf toy deliver 1 deliver_short 0 1 tt t)
follow-IsSound_example =
    follow-IsSound shelf toy deliver 1 deliver_short catching_up 1 (0 ∷ []) genesis watched-IsSound
      (omega arith)

-- One hundred entries, the oldest of a round that is cached.
abbrev oldest : Bytes
oldest = 5 ∷ []

abbrev repeated : ℕ → List Bytes
repeated zero = []
repeated (suc n) = (6 ∷ []) ∷ repeated n

abbrev old_round : RoundCache
old_round = record { round = 4; prev = []; id = oldest; sigs = (pos 3, 3 ∷ []) ∷ [] }

abbrev full_cache : PartialCache
full_cache = record { rounds = (oldest, old_round) ∷ []; rcvd = (pos 3, oldest ∷ repeated 99) ∷ [] }

append_at_limit_example :
    rcvd_of (append toy full_cache first_partial) (pos 3)
    ≡ (repeated 99 ++ round_id 1 (7 ∷ []) ∷ []) ++ round_id 1 (7 ∷ []) ∷ []
unfolding rcvd_of lookup round_id round_to_bytes bytes_equal
append_at_limit_example =
    append_at_limit toy full_cache first_partial oldest (repeated 99) old_round refl (omega arith)
      refl refl

abbrev stale_cache : PartialCache
stale_cache = record full_cache { rounds = [] }

append_blocked_example : append toy stale_cache first_partial ≡ stale_cache
unfolding rcvd_of lookup
append_blocked_example =
    append_blocked toy stale_cache first_partial oldest (repeated 99) refl (omega arith) refl refl

abbrev first_round : RoundCache
first_round = record {
  round = 1;
  prev = 7 ∷ [];
  id = round_id 1 (7 ∷ []);
  sigs = (pos 3, 3 ∷ next_sig) ∷ [];
}

get_round_cache-run_ops_example :
    (first_round.round ≡ 1) × (first_round.prev ≡ 7 ∷ []) × IsValidRound toy first_round
unfolding run_ops append get_cache make_room open_cache append_to append_sig count_partial
    get_round_cache round_id lookup insert rcvd_of new_round_cache round_to_bytes bytes_equal
    new_partial_cache
get_round_cache-run_ops_example =
    get_round_cache-run_ops toy (Op.appends first_partial ∷ []) 1 (7 ∷ []) first_round (omega arith)
      (omega arith) refl
