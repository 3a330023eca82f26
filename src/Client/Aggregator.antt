-- ===== src/Client/Aggregator.antt =====
-- client/aggregator.go: one watch of the client for many subscribers. A subscriber is a handle with a
-- channel of five places; a context that is done is an argument.
pub mod Distribution
use drand.Prelude.{
  ℕ, ◌+◌, ◌≡◌, Bool, true, false, not, ◌&&◌, Option, none, some, List, [], ◌∷◌, ◌++◌, length, ltb,
  ◌==◌, if◌then◌else◌, any,
}
use drand.Prelude.Int.{ℤ, pos, eq_ℤ, ltb_ℤ}
use drand.Client.Verify.{RandomData}

abbrev pub aggregator_watch_buffer : ℕ
aggregator_watch_buffer = 5

-- 30 seconds
abbrev pub default_auto_watch_retry : ℤ
default_auto_watch_retry = pos 30000000000

-- The channel: what waits in it, and whether it is closed
pub record Subscriber : Type 0 where
  pub id : ℕ
  pub buffer : List RandomData
  pub closed : Bool

pub record WatchAggregator : Type 0 where
  pub has_passive_client : Bool
  pub auto_watch : Bool
  pub auto_watch_retry : ℤ
  pub subscribers : List Subscriber
  -- cancelPassive is set while the passive client is watched.
  pub passive_watching : Bool
  -- the number of watches of the client that were opened
  pub watches : ℕ
  -- subscribers that were removed, with their closed channels
  pub removed : List Subscriber

-- newWatchAggregator
unfoldable pub new_watch_aggregator : Bool → Bool → ℤ → WatchAggregator
new_watch_aggregator has_passive auto retry = record {
  has_passive_client = has_passive;
  auto_watch = auto;
  auto_watch_retry = if eq_ℤ retry (pos 0) then default_auto_watch_retry else retry;
  subscribers = [];
  passive_watching = false;
  watches = 0;
  removed = [];
}

-- What Start runs: a full watch, a passive one, or none
pub data AutoWatch : Type 0 where
  full passive nothing : AutoWatch

unfoldable pub start : WatchAggregator → AutoWatch
start c = if c.auto_watch then full else if c.has_passive_client then passive else nothing

-- Whether startAutoWatch opens the watch again when it ended
unfoldable pub retries : WatchAggregator → Bool
retries c = not (ltb_ℤ c.auto_watch_retry (pos 0))

-- passiveWatch; false for a channel that is closed at once, none for no channel
unfoldable pub passive_watch : WatchAggregator → WatchAggregator × Option Bool
passive_watch c =
    if c.passive_watching
    then (c, none)
    else if length c.subscribers == 0
    then (record c { passive_watching = true }, some true)
    else (c, some false)

-- Watch of a subscriber: the first one opens a watch of the client and ends that of the passive one.
unfoldable pub subscribe : WatchAggregator → ℕ → WatchAggregator
subscribe c id =
    let sub : Subscriber = record { id = id; buffer = []; closed = false } in
    let subs = c.subscribers ++ sub ∷ [] in
    if length subs == 1
    then record c { subscribers = subs; passive_watching = false; watches = c.watches + 1 }
    else record c { subscribers = subs }

-- What the select of distribute gave: a result, the end of the watch, or the context of the first
-- subscriber
pub data Received : Type 0 where
  message : RandomData → Received
  watch_ended first_done : Received

abbrev pub is_message : Received → Bool
is_message (message m) = true
is_message watch_ended = false
is_message first_done = false

-- case s.c <- m, or default: the channel is full
unfoldable pub send : Subscriber → Received → Subscriber
send s (message m) =
    if ltb (length s.buffer) aggregator_watch_buffer
    then record s { buffer = s.buffer ++ m ∷ [] }
    else s
send s watch_ended = s
send s first_done = s

abbrev pub is_done : List ℕ → Subscriber → Bool
is_done done s = any (λ d. d == s.id) done

-- The loop over the subscribers, with those whose context is done: who stays, and who is closed
unfoldable pub distribute_to :
    List ℕ → Received → List Subscriber → List Subscriber × List Subscriber
unfolding send
distribute_to done r [] = ([], [])
distribute_to done r (s ∷ ss) =
    let (kept, gone) = distribute_to done r ss in
    if is_message r && not (is_done done s)
    then (send s r ∷ kept, gone)
    else (kept, record s { closed = true } ∷ gone)

-- One turn of the loop of distribute, and whether it goes on
unfoldable pub distribute : WatchAggregator → List ℕ → Received → WatchAggregator × Bool
unfolding distribute_to
distribute c done r =
    if length c.subscribers == 0
    then (c, false)
    else (let (kept, gone) = distribute_to done r c.subscribers in
        (record c { subscribers = kept; removed = c.removed ++ gone }, is_message r))
