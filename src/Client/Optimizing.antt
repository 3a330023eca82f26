-- ===== src/Client/Optimizing.antt =====
-- client/optimizing.go: the client that asks the fastest of several clients. A client is a handle, a
-- number, which `==` compares. Times are nanoseconds since 1970; what a request gave, and when, is an
-- argument.
pub mod Ranking
pub mod Results
use drand.Prelude.{
  ℕ, ◌+◌, ◌*◌, ◌-◌, ◌^◌, Bool, true, false, not, ◌&&◌, Option, none, some, List, [], ◌∷◌, ◌++◌, map,
  any, ltb, leb, ◌==◌, if◌then◌else◌, filter, Result, ok, err,
}
use drand.Prelude.Int.{ℤ, pos, negsuc, ltb_ℤ, eq_ℤ, ◌-ℤ◌, ◌*ℤ◌}
use drand.Prelude.Sorting.{sort_by}
use drand.Chain.Time.{time_of_round}
use drand.Client.Verify.{RandomData}

abbrev pub seconds_ns : ℕ → ℤ
seconds_ns s = pos (s * 1000000000)

-- The constants of the file
abbrev pub default_request_timeout : ℤ
default_request_timeout = seconds_ns 5

abbrev pub default_speed_test_interval : ℤ
default_speed_test_interval = seconds_ns 300

abbrev pub default_request_concurrency : ℕ
default_request_concurrency = 1

abbrev pub default_watch_retry_interval : ℤ
default_watch_retry_interval = seconds_ns 30

-- math.MaxInt64, a round trip time behind all others
abbrev pub max_rtt : ℤ
max_rtt = pos (2 ^ 63 - 1)

-- time.Unix(maxUnixTime, 999999999), a start after all others
abbrev pub max_start : ℤ
max_start = pos ((2 ^ 63 - 62135596801) * 1000000000 + 999999999)

pub record RequestStat : Type 0 where
  pub client : ℕ
  pub rtt : ℤ
  pub start_time : ℤ

pub record OptimizingClient : Type 0 where
  pub clients : List ℕ
  pub passive_clients : List ℕ
  pub stats : List RequestStat
  pub request_timeout : ℤ
  pub request_concurrency : ℕ
  pub speed_test_interval : ℤ
  pub watch_retry_interval : ℤ

pub data OptimizingError : Type 0 where
  missing_clients : OptimizingError

-- What is not positive, or zero, is replaced by the default.
abbrev pub or_default_positive : ℤ → ℤ → ℤ
or_default_positive d z = if ltb_ℤ (pos 0) z then z else d

abbrev pub or_default : ℤ → ℤ → ℤ
or_default d z = if eq_ℤ z (pos 0) then d else z

abbrev pub concurrency_of : ℤ → ℕ
concurrency_of (negsuc n) = default_request_concurrency
concurrency_of (pos n) = if n == 0 then default_request_concurrency else n

abbrev pub fresh_stat : ℤ → ℕ → RequestStat
fresh_stat now c = record { client = c; rtt = pos 0; start_time = now }

-- newOptimizingClient, at the time `now`
unfoldable pub new_optimizing_client :
    List ℕ → ℤ → ℤ → ℤ → ℤ → ℤ → Result OptimizingError OptimizingClient
new_optimizing_client [] timeout concurrency speed retry now = err missing_clients
new_optimizing_client (c ∷ cs) timeout concurrency speed retry now = ok (record {
  clients = c ∷ cs;
  passive_clients = [];
  stats = map (fresh_stat now) (c ∷ cs);
  request_timeout = or_default_positive default_request_timeout timeout;
  request_concurrency = concurrency_of concurrency;
  speed_test_interval = or_default default_speed_test_interval speed;
  watch_retry_interval = or_default default_watch_retry_interval retry;
})

-- MarkPassive
unfoldable pub passive_stat : ℕ → RequestStat → RequestStat
passive_stat c s = if s.client == c then record s { rtt = max_rtt; start_time = max_start } else s

unfoldable pub mark_passive : OptimizingClient → ℕ → OptimizingClient
unfolding passive_stat
mark_passive oc c = record oc {
  passive_clients = oc.passive_clients ++ c ∷ [];
  stats = map (passive_stat c) oc.stats;
}

-- markedPassive
unfoldable pub marked_passive : OptimizingClient → ℕ → Bool
marked_passive oc c = any (λ p. p == c) oc.passive_clients

-- The clients that testSpeed asks
unfoldable pub tested_clients : OptimizingClient → List ℕ
unfolding marked_passive
tested_clients oc = filter (λ c. not (marked_passive oc c)) oc.clients

-- fastestClients
unfoldable pub fastest_clients : OptimizingClient → List ℕ
fastest_clients oc = map (λ (s : RequestStat). s.client) oc.stats

-- The inner loop of updateStats: the first entry of the client takes a later sample.
unfoldable pub sample : RequestStat → List RequestStat → List RequestStat
sample next [] = []
sample next (curr ∷ rest) =
    let later = sample next rest in
    if curr.client == next.client
    then (if ltb_ℤ curr.start_time next.start_time
        then record curr { rtt = next.rtt; start_time = next.start_time } ∷ rest
        else curr ∷ rest)
    else curr ∷ later

unfoldable pub samples : List RequestStat → List RequestStat → List RequestStat
unfolding sample
samples [] stats = stats
samples (next ∷ nexts) stats = samples nexts (sample next stats)

abbrev pub faster : RequestStat → RequestStat → Bool
faster s t = ltb_ℤ s.rtt t.rtt

-- updateStats
unfoldable pub update_stats : OptimizingClient → List RequestStat → OptimizingClient
unfolding samples
update_stats oc stats = record oc { stats = sort_by faster (samples stats oc.stats) }

-- The error of a client, or of a context
pub data GetError : Type 0 where
  empty_client_unsupported context : GetError
  failure : ℕ → GetError

abbrev pub is_context : GetError → Bool
is_context context = true
is_context empty_client_unsupported = false
is_context (failure n) = false

pub record RequestResult : Type 0 where
  pub client : ℕ
  pub answer : Result GetError RandomData
  pub stat : RequestStat

-- get: what the client answered, whether the context is done, and the times
unfoldable pub request : ℕ → Result GetError RandomData → Bool → ℤ → ℤ → Option RequestResult
request c (err e) cancelled start finish =
    if is_context e && cancelled
    then none
    else some (record {
      client = c;
      answer = err e;
      stat = record { client = c; rtt = max_rtt; start_time = start };
    })
request c (ok r) cancelled start finish =
    if cancelled
    then none
    else some (record {
      client = c;
      answer = ok r;
      stat = record { client = c; rtt = finish -ℤ start; start_time = start };
    })

-- raceGet: the results in the order in which they come, up to the first that is no error
unfoldable pub race : List RequestResult → List RequestResult
race [] = []
race (r ∷ rs) = let later = race rs in elim r.answer [ ok d ↦ r ∷ [] | err e ↦ r ∷ later ]

-- How the loop of Get ended: the channel closed, the context done, or the client closed
pub data Ending : Type 0 where
  exhausted cancelled closed : Ending

-- What a result makes of the answer so far: the errors are joined, except that of an empty client. A
-- result that comes with an error is dropped by every caller.
unfoldable pub joined :
    Result (List GetError) RandomData
    → Result GetError RandomData
    → Result (List GetError) RandomData
joined so_far (ok d) = ok d
joined so_far (err empty_client_unsupported) = so_far
joined (err es) (err context) = err (es ++ context ∷ [])
joined (err es) (err (failure n)) = err (es ++ failure n ∷ [])
joined (ok d) (err context) = err (context ∷ [])
joined (ok d) (err (failure n)) = err (failure n ∷ [])

-- The loop of Get; no error joined stands for `no valid clients`.
unfoldable pub get_answer :
    Result (List GetError) RandomData → List RequestResult → Result (List GetError) RandomData
unfolding joined
get_answer so_far [] = so_far
get_answer so_far (r ∷ rs) = get_answer (joined so_far r.answer) rs

-- Get, of the results that were read and the way the loop ended
unfoldable pub get :
    OptimizingClient
    → List RequestResult
    → Ending
    → OptimizingClient × Result (List GetError) RandomData
unfolding update_stats get_answer race
get oc results exhausted = (
  update_stats oc (map (λ (r : RequestResult). r.stat) (race results)),
  get_answer (err []) (race results),
)
get oc results cancelled =
    (update_stats oc (map (λ (r : RequestResult). r.stat) (race results)), err (context ∷ []))
get oc results closed =
    (update_stats oc (map (λ (r : RequestResult). r.stat) (race results)), err [])

-- One round of testSpeed: every answer's sample, an error's too
unfoldable pub test_speed : OptimizingClient → List RequestResult → OptimizingClient
unfolding update_stats
test_speed oc results = update_stats oc (map (λ (r : RequestResult). r.stat) results)

-- Info: the first client that answers
unfoldable pub first_info : {I : Type 0} → (ℕ → Option I) → List ℕ → Option I
first_info info_of [] = none
first_info info_of (c ∷ cs) =
    let later = first_info info_of cs in elim (info_of c) [ some i ↦ some i | none ↦ later ]

-- A result of a watch, with the client that gave it and the time of its arrival
pub record WatchResult : Type 0 where
  pub result : RandomData
  pub client : ℕ
  pub now : ℤ

-- The sample that trackWatchResults makes of a result, by the time of its round
unfoldable pub observe : ℤ → ℤ → OptimizingClient → WatchResult → OptimizingClient
unfolding update_stats
observe period genesis oc r =
    let at = time_of_round period genesis r.result.rnd *ℤ pos 1000000000 in
    update_stats oc (record { client = r.client; rtt = r.now -ℤ at; start_time = at } ∷ [])

-- trackWatchResults: the period and genesis of the chain, the last round sent on, and what came in
unfoldable pub track :
    ℤ → ℤ → OptimizingClient → ℕ → List WatchResult → OptimizingClient × List RandomData
unfolding observe
track period genesis oc latest [] = (oc, [])
track period genesis oc latest (r ∷ rs) =
    let newer = ltb latest r.result.rnd in
    let (last, out) =
      track period genesis (observe period genesis oc r) (if newer then r.result.rnd else latest)
        rs in
    (last, if newer then r.result ∷ out else out)
