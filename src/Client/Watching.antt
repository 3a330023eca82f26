-- ===== src/Client/Watching.antt =====
-- client/optimizing.go: the watches that the optimizing client keeps open. A list holds the clients that
-- are watched; a closed watch is one that was cancelled. The clock's reading is an argument.
pub mod Counting
pub mod Slots
use drand.Prelude.{
  ℕ, zero, suc, ◌+◌, ◌-◌, ◌≡◌, Bool, true, false, not, ◌&&◌, ◌||◌, Option, none, some, List, [],
  ◌∷◌, ◌++◌, map, any, filter, leb, ◌==◌, if◌then◌else◌, length, get_last?,
}
use drand.Prelude.Int.{ℤ, ltb_ℤ, ◌+ℤ◌}
use drand.Client.Optimizing.{OptimizingClient, RequestStat, fastest_clients, update_stats}

pub record FailedClient : Type 0 where
  pub client : ℕ
  pub backoff_until : ℤ

pub record WatchState : Type 0 where
  pub optimizer : OptimizingClient
  pub active : List ℕ
  pub protected : List ℕ
  pub failed : List FailedClient
  pub retry_interval : ℤ
  -- the watches cancelled so far, by client
  pub cancelled : List ℕ

-- The state that Watch starts with: the passive clients are watched for good.
unfoldable pub new_watch_state : OptimizingClient → WatchState
new_watch_state oc = record {
  optimizer = oc;
  active = [];
  protected = oc.passive_clients;
  failed = [];
  retry_interval = oc.watch_retry_interval;
  cancelled = [];
}

-- hasActive and hasProtected: the first index, none for -1
unfoldable pub index_in : List ℕ → ℕ → Option ℕ
index_in [] c = none
index_in (a ∷ rest) c =
    let later = index_in rest c in
    if a == c then some 0 else (elim later [ none ↦ none | some i ↦ some (suc i) ])

-- l[i] = l[len(l)-1]; l = l[:len(l)-1]
unfoldable pub drop_last : List ℕ → List ℕ
drop_last [] = []
drop_last (x ∷ []) = []
drop_last (x ∷ y ∷ rest) = x ∷ drop_last (y ∷ rest)

unfoldable pub set_at : ℕ → ℕ → List ℕ → List ℕ
set_at i v [] = []
set_at zero v (x ∷ rest) = v ∷ rest
set_at (suc i) v (x ∷ rest) = x ∷ set_at i v rest

unfoldable pub swap_remove : ℕ → List ℕ → List ℕ
unfolding drop_last set_at
swap_remove i l = elim (get_last? l) [ none ↦ [] | some z ↦ drop_last (set_at i z l) ]

-- clean
unfoldable pub clean : WatchState → ℤ → WatchState
clean ws now = record ws {
  failed = filter (λ (f : FailedClient). ltb_ℤ now f.backoff_until) ws.failed;
}

-- close: the watch at an index of active is cancelled and taken out.
unfoldable pub close : WatchState → ℕ → ℕ → WatchState
unfolding swap_remove
close ws c i = record ws { active = swap_remove i ws.active; cancelled = ws.cancelled ++ c ∷ [] }

-- done
unfoldable pub done_protected : WatchState → Option ℕ → WatchState
unfolding swap_remove
done_protected ws none = ws
done_protected ws (some i) = record ws { protected = swap_remove i ws.protected }

unfoldable pub done_at : WatchState → ℕ → ℤ → Option ℕ → WatchState
unfolding close done_protected index_in
done_at ws c now (some i) =
    let closed = close ws c i in
    record closed {
      failed = ws.failed ++ record { client = c; backoff_until = now +ℤ ws.retry_interval } ∷ [];
    }
done_at ws c now none = done_protected ws (index_in ws.protected c)

unfoldable pub done : WatchState → ℕ → ℤ → WatchState
unfolding done_at
done ws c now = done_at ws c now (index_in ws.active c)

-- closeSlowest: the last of the ranked clients that is active. The code has a watch only for a client of
-- the ranking, so that it finds one whenever a watch is open.
abbrev pub is_in : List ℕ → ℕ → Bool
is_in l c = any (λ a. a == c) l

unfoldable pub close_at : WatchState → Option ℕ → WatchState
unfolding close index_in
close_at ws none = ws
close_at ws (some c) = elim (index_in ws.active c) [ none ↦ ws | some i ↦ close ws c i ]

unfoldable pub close_slowest : WatchState → WatchState
unfolding close_at
close_slowest ws = close_at ws (get_last? (filter (is_in ws.active) (fastest_clients ws.optimizer)))

-- nextUnwatched: the fastest client that is not active, failed or protected
abbrev pub is_unwatched : WatchState → ℕ → Bool
is_unwatched ws c = not (
    is_in ws.active c
    || is_in (map (λ (f : FailedClient). f.client) ws.failed) c
    || is_in ws.protected c)

unfoldable pub first_such : (ℕ → Bool) → List ℕ → Option ℕ
first_such p [] = none
first_such p (c ∷ cs) = let later = first_such p cs in if p c then some c else later

unfoldable pub next_unwatched : WatchState → Option ℕ
unfolding first_such
next_unwatched ws = first_such (is_unwatched ws) (fastest_clients ws.optimizer)

-- The loop of tryRepopulate, for a number of free places: it ends when none is left or when every
-- client is watched or failed.
unfoldable pub repopulate : ℕ → WatchState → WatchState
unfolding next_unwatched
repopulate zero ws = ws
repopulate (suc free) ws = elim (next_unwatched ws) [
  | none ↦ ws
  | some c ↦ repopulate free (record ws { active = ws.active ++ c ∷ [] })
]

-- tryRepopulate
unfoldable pub try_repopulate : WatchState → ℤ → WatchState
unfolding repopulate clean
try_repopulate ws now =
    repopulate (ws.optimizer.request_concurrency - length ws.active) (clean ws now)

-- dispatchWatchingClients: case c := <-closingClients, with whether the context is done
unfoldable pub on_closing : WatchState → ℕ → ℤ → Bool → WatchState
unfolding done try_repopulate
on_closing ws c now context_done =
    if context_done then done ws c now else try_repopulate (done ws c now) now

-- The loop returns after a closing when nothing is watched any more.
unfoldable pub is_over : WatchState → Bool
is_over ws = length ws.active == 0 && length ws.protected == 0

-- case <-ticker.C, of the ranked clients: nothing happens while the fastest is watched.
unfoldable pub on_ranked : WatchState → ℤ → List ℕ → WatchState
unfolding close_slowest try_repopulate
on_ranked ws now [] = ws
on_ranked ws now (fastest ∷ rest) =
    if is_in ws.active fastest || is_in ws.protected fastest
    then ws
    else try_repopulate (close_slowest ws) now

unfoldable pub on_ticker : WatchState → ℤ → WatchState
unfolding on_ranked
on_ticker ws now = on_ranked ws now (fastest_clients ws.optimizer)

-- case <-ws.ctx.Done()
unfoldable pub on_done : WatchState → WatchState
on_done ws = record ws { cancelled = ws.cancelled ++ ws.active }

-- What can happen while clients are watched; the ranking changes beside it.
pub data WatchEvent : Type 0 where
  closing : ℕ → Bool → WatchEvent
  ticker : WatchEvent
  ranked : List RequestStat → WatchEvent

unfoldable pub on_event : WatchState → ℤ → WatchEvent → WatchState
unfolding on_closing on_ticker
on_event ws now (closing c context_done) = on_closing ws c now context_done
on_event ws now ticker = on_ticker ws now
on_event ws now (ranked samples) = record ws { optimizer = update_stats ws.optimizer samples }

abbrev pub ends : WatchEvent → WatchState → Bool
ends (closing c context_done) ws = is_over ws
ends ticker ws = false
ends (ranked samples) ws = false

-- The loop of dispatchWatchingClients, for the events in their order with their times
unfoldable pub dispatch : WatchState → List (ℤ × WatchEvent) → WatchState
unfolding on_event is_over
dispatch ws [] = ws
dispatch ws ((now, event) ∷ events) =
    let later = dispatch (on_event ws now event) events in
    if ends event (on_event ws now event) then on_event ws now event else later

-- Watch: the passive clients are watched first, then the others as far as there are places.
unfoldable pub watch : OptimizingClient → ℤ → List (ℤ × WatchEvent) → WatchState
unfolding try_repopulate new_watch_state dispatch
watch oc now events = dispatch (try_repopulate (new_watch_state oc) now) events
