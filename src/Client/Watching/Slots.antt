-- ===== src/Client/Watching/Slots.antt =====
-- client/optimizing.go: no client is watched twice, and no more are watched than asked for.
use drand.Prelude.{
  ℕ, zero, suc, ◌+◌, ◌-◌, ◌≡◌, ◌≤◌, ◌<◌, ◌⊎◌, refl, sym, subst, Bool, true, false, ◌||◌, Option,
  none, some, List, [], ◌∷◌, ◌++◌, map, ◌==◌, ==_iff, if◌then◌else◌, length, arith, Bool-cases,
  Option-cases, inl, inr,
}
use drand.Prelude.Int.{ℤ}
use drand.Client.Optimizing.{OptimizingClient, RequestStat, fastest_clients, update_stats}
use drand.Client.Watching.{
  FailedClient, WatchState, index_in, clean, close, done_protected, done_at, done, is_in, close_at,
  close_slowest, is_unwatched, first_such, next_unwatched, repopulate, try_repopulate, on_closing,
  on_ranked, on_ticker, new_watch_state, WatchEvent, closing, ticker, ranked, on_event, ends,
  dispatch, watch,
}
use drand.Client.Watching.Counting.{
  times, times-is_in, is_in-times, times-append, length-snoc, times-swap_remove,
}

abbrev pub failed_clients : WatchState → List ℕ
failed_clients ws = map (λ (f : FailedClient). f.client) ws.failed

-- No client is watched twice, none that is watched for good besides, and the places suffice.
pub record IsWatching (ws : WatchState) : Type 0 where
  pub once : (d : ℕ) → times d ws.active ≤ 1
  pub bounded : length ws.active ≤ ws.optimizer.request_concurrency
  pub apart : (d : ℕ) → 0 < times d ws.active → times d ws.protected ≡ 0

first_such_lem : (p : ℕ → Bool) (l : List ℕ) (c : ℕ) → first_such p l ≡ some c → p c ≡ true
unfolding first_such
first_such_lem p [] c h = cc
first_such_lem p (x ∷ l) c h = elim (Bool-cases (p x)) [
  | inl holds ↦
      let found : first_such p (x ∷ l) ≡ some x = rw (holds, first_such) refl in
      let same : x ≡ c = cc in subst (λ t. p t ≡ true) same holds
  | inr fails ↦ first_such_lem p l c (ground arith)
]

add-IsWatching :
    (ws : WatchState) (c : ℕ)
    → next_unwatched ws ≡ some c
    → length ws.active < ws.optimizer.request_concurrency
    → IsWatching ws
    → IsWatching (record ws { active = ws.active ++ c ∷ [] })
unfolding next_unwatched
add-IsWatching ws c found free w =
    let unwatched = first_such_lem (is_unwatched ws) (fastest_clients ws.optimizer) c found in
    let inactive = times-is_in ws.active c (ground arith) in
    let unprotected = times-is_in ws.protected c (ground arith) in
    record {
      once = λ d.
          let added = times-append d ws.active c in
          let before = w.once d in
          elim (Bool-cases (c == d)) [
            | inl same ↦
                let eq = (==_iff c d).0 same in
                let none_yet = subst (λ t. times t ws.active ≡ 0) eq inactive in ground arith
            | inr other ↦ ground arith
          ];
      bounded = omega (arith, length-snoc ws.active c);
      apart = λ d h.
          let added = times-append d ws.active c in
          elim (Bool-cases (c == d)) [
            | inl same ↦ subst (λ t. times t ws.protected ≡ 0) ((==_iff c d).0 same) unprotected
            | inr other ↦ w.apart d (ground arith)
          ];
    }

first_such-none :
    (p : ℕ → Bool) (l : List ℕ) (c : ℕ) → first_such p l ≡ none → 0 < times c l → p c ≡ false
unfolding first_such
first_such-none p [] c h k = absurd (omega arith)
first_such-none p (x ∷ l) c h k = elim (Bool-cases (p x)) [
  | inl holds ↦ absurd (ground arith)
  | inr fails ↦ elim (Bool-cases (x == c)) [
    | inl same ↦ subst (λ t. p t ≡ false) ((==_iff x c).0 same) fails
    | inr other ↦ first_such-none p l c (ground arith) (ground arith)
  ]
]

-- What the loop of tryRepopulate leaves: the places are taken, or each client of the ranking is watched,
-- watched for good, or failed.
abbrev pub IsPopulated : WatchState → Type 0
IsPopulated ws =
    (length ws.active ≡ ws.optimizer.request_concurrency)
    ⊎ ((c : ℕ)
        → 0 < times c (map (λ (s : RequestStat). s.client) ws.optimizer.stats)
        → 0 < times c ws.active + times c ws.protected + times c (failed_clients ws))

no_client_left :
    (ws : WatchState) (c : ℕ)
    → next_unwatched ws ≡ none
    → 0 < times c (fastest_clients ws.optimizer)
    → 0 < times c ws.active + times c ws.protected + times c (failed_clients ws)
unfolding next_unwatched
no_client_left ws c nobody there =
    let taken = first_such-none (is_unwatched ws) (fastest_clients ws.optimizer) c nobody there in
    ground (
      arith,
      is_in-times ws.active c,
      is_in-times ws.protected c,
      is_in-times (failed_clients ws) c,
    )

repopulate-IsWatching :
    (free : ℕ) (ws : WatchState)
    → IsWatching ws
    → free + length ws.active ≡ ws.optimizer.request_concurrency
    → IsWatching (repopulate free ws) × IsPopulated (repopulate free ws)
unfolding repopulate
repopulate-IsWatching zero ws w room = (w, inl (omega arith))
repopulate-IsWatching (suc free) ws w room = elim (Option-cases (next_unwatched ws)) [
  | inl nobody ↦
      rw (nobody, repopulate)
        (w, inr (unfold fastest_clients in λ c there. no_client_left ws c nobody there))
  | inr (c, found) ↦
      let ws' = record ws { active = ws.active ++ c ∷ [] } in
      let step : repopulate (suc free) ws ≡ repopulate free ws' = rw (found, repopulate) refl in
      subst (λ t. IsWatching t × IsPopulated t) (sym step)
        (repopulate-IsWatching free ws' (add-IsWatching ws c found (omega arith) w)
          (omega (arith, length-snoc ws.active c)))
]

-- However many places are free, the loop of tryRepopulate ends, with every place taken or every ranked
-- client watched, watched for good or failed. No client is then watched twice, none that is watched for
-- good besides, and no more than the places, if it was so before.
pub try_repopulate-IsWatching :
    (ws : WatchState) (now : ℤ)
    → IsWatching ws
    → IsWatching (try_repopulate ws now) × IsPopulated (try_repopulate ws now)
unfolding try_repopulate clean
try_repopulate-IsWatching ws now w =
    let room = w.bounded in
    repopulate-IsWatching (ws.optimizer.request_concurrency - length ws.active) (clean ws now)
      (record { once = w.once; bounded = w.bounded; apart = w.apart }) (omega arith)

close-IsWatching :
    (ws : WatchState) (c i : ℕ)
    → index_in ws.active c ≡ some i
    → IsWatching ws
    → IsWatching (close ws c i)
unfolding close
close-IsWatching ws c i found w = record {
  once = λ d.
      let removed = (times-swap_remove d ws.active c i found).0 in
      let before = w.once d in omega arith;
  bounded =
      let size = (times-swap_remove 0 ws.active c i found).1 in
      let before = w.bounded in omega arith;
  apart =
      λ d h. let removed = (times-swap_remove d ws.active c i found).0 in w.apart d (omega arith);
}

done_protected-IsWatching :
    (ws : WatchState) (c : ℕ) (o : Option ℕ)
    → index_in ws.protected c ≡ o
    → IsWatching ws
    → IsWatching (done_protected ws o)
unfolding done_protected
done_protected-IsWatching ws c none found w = w
done_protected-IsWatching ws c (some i) found w = record {
  once = w.once;
  bounded = w.bounded;
  apart = λ d h.
      let removed = (times-swap_remove d ws.protected c i found).0 in
      let before = w.apart d h in omega arith;
}

done_at-IsWatching :
    (ws : WatchState) (c : ℕ) (now : ℤ) (o : Option ℕ)
    → index_in ws.active c ≡ o
    → IsWatching ws
    → IsWatching (done_at ws c now o)
unfolding done_at
done_at-IsWatching ws c now none found w =
    done_protected-IsWatching ws c (index_in ws.protected c) refl w
done_at-IsWatching ws c now (some i) found w =
    let w' = close-IsWatching ws c i found w in
    record { once = w'.once; bounded = w'.bounded; apart = w'.apart }

close_at-IsWatching : (ws : WatchState) (o : Option ℕ) → IsWatching ws → IsWatching (close_at ws o)
unfolding close_at
close_at-IsWatching ws none w = w
close_at-IsWatching ws (some c) w = elim (Option-cases (index_in ws.active c)) [
  | inl absent ↦
      let step : close_at ws (some c) ≡ ws = rw (absent, close_at) refl in
      subst IsWatching (sym step) w
  | inr (i, found) ↦
      let step : close_at ws (some c) ≡ close ws c i = rw (found, close_at) refl in
      subst IsWatching (sym step) (close-IsWatching ws c i found w)
]

on_closing-IsWatching :
    (ws : WatchState) (c : ℕ) (now : ℤ) (context_done : Bool)
    → IsWatching ws
    → IsWatching (on_closing ws c now context_done)
unfolding on_closing done
on_closing-IsWatching ws c now true w = done_at-IsWatching ws c now (index_in ws.active c) refl w
on_closing-IsWatching ws c now false w =
    (try_repopulate-IsWatching (done ws c now) now
      (done_at-IsWatching ws c now (index_in ws.active c) refl w)).0

close_slowest-IsWatching : (ws : WatchState) → IsWatching ws → IsWatching (close_slowest ws)
unfolding close_slowest
close_slowest-IsWatching ws w = close_at-IsWatching ws _ w

kept_or {ℓ} :
    {A : Type ℓ} → (P : A → Type ℓ) → (b : Bool) → {x y : A} → P x → P y → P (if b then x else y)
kept_or P true p q = p
kept_or P false p q = q

on_ranked-IsWatching :
    (ws : WatchState) (now : ℤ) (ranking : List ℕ)
    → IsWatching ws
    → IsWatching (on_ranked ws now ranking)
unfolding on_ranked
on_ranked-IsWatching ws now [] w = w
on_ranked-IsWatching ws now (fastest ∷ rest) w =
    kept_or IsWatching (is_in ws.active fastest || is_in ws.protected fastest) w
      (try_repopulate-IsWatching (close_slowest ws) now (close_slowest-IsWatching ws w)).0

on_event-IsWatching :
    (ws : WatchState) (now : ℤ) (event : WatchEvent)
    → IsWatching ws
    → IsWatching (on_event ws now event)
unfolding on_event on_ticker update_stats
on_event-IsWatching ws now (closing c context_done) w =
    on_closing-IsWatching ws c now context_done w
on_event-IsWatching ws now ticker w = on_ranked-IsWatching ws now (fastest_clients ws.optimizer) w
on_event-IsWatching ws now (ranked samples) w = record {
  once = w.once;
  bounded = w.bounded;
  apart = w.apart;
}

dispatch-IsWatching :
    (ws : WatchState) (events : List (ℤ × WatchEvent))
    → IsWatching ws
    → IsWatching (dispatch ws events)
unfolding dispatch
dispatch-IsWatching ws [] w = w
dispatch-IsWatching ws ((now, event) ∷ events) w =
    let w' = on_event-IsWatching ws now event w in
    kept_or IsWatching (ends event (on_event ws now event)) w'
      (dispatch-IsWatching (on_event ws now event) events w')

-- At all times after Watch, whatever happens: no client is watched twice, none that is watched for good
-- besides, and no more clients than requestConcurrency.
pub watch-IsWatching :
    (oc : OptimizingClient) (now : ℤ) (events : List (ℤ × WatchEvent))
    → IsWatching (watch oc now events)
unfolding watch new_watch_state
watch-IsWatching oc now events =
    dispatch-IsWatching (try_repopulate (new_watch_state oc) now) events
      (try_repopulate-IsWatching (new_watch_state oc) now
        (record { once = λ d. omega arith; bounded = omega arith; apart = λ d h. ground arith })).0
